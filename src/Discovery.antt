-- ===== src/Discovery.antt =====
-- discovery.c: the discovery module with its own table of clients, which nothing starts.
pub mod Clients
pub mod Service
pub mod Cleanup
pub mod Ports
pub mod Announced
pub mod Rounds
pub mod Stop
