-- ===== src/Client.antt =====
-- client.c: the client, which looks for a server and sends it values.
pub mod Search
pub mod Exchange
pub mod Session
pub mod Menu
pub mod Loops
pub mod Program
pub mod Typing
pub mod Ports
pub mod Attempts
pub mod Delivery
pub mod Answers
pub mod Resending
pub mod Sums
pub mod Visit
pub mod Meeting
