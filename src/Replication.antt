-- ===== src/Replication.antt =====
-- replication.c and replication.h: the replicated sum, the table of replicas and the election.
pub mod Types
pub mod Table
pub mod Election
pub mod State
pub mod Membership
pub mod Receiver
pub mod Startup
pub mod Joining
pub mod JoinRequest
pub mod Locking
pub mod Distinct
pub mod Copying
pub mod Role
pub mod Faults
pub mod Entries
pub mod Welcome
pub mod Succession
pub mod Challenge
pub mod Failover
pub mod Agreement
pub mod Heartbeat
pub mod Watch
pub mod Services
pub mod Sends
pub mod Freshness
pub mod Origin
pub mod Signing
pub mod Rounds
