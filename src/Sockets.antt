-- ===== src/Sockets.antt =====
-- The sockets of server_prot.c, client.c, discovery.c and replication.c, from `socket` to `close`.
mod Calls
mod SetUp
mod Example
mod Release
unfoldable pub use Calls.*
unfoldable pub use SetUp.*
unfoldable pub use Release.{Ends}
pub use Release.{set_up-Ends}
unfoldable pub use Example.{client_socket_main}
