-- ===== src/Server.antt =====
-- server_prot.h and server_prot.c: the packets between client and server, and the two services
-- that answer them.
pub mod Packet
pub mod Request
pub mod Adder
pub mod Service
pub mod Accounting
pub mod Processing
pub mod Interleaving
