-- ===== src/Bakery.antt =====
-- "Atividade 1 - Algorítmo da padaria/lamport.c": the bakery lock and the threads that count with it.
mod Lock
mod Order
mod Moves
mod Entries
mod Ranges
mod Ordered
mod Invariant
mod Exclusion
mod Inside
mod Progress
mod Turns
mod Finish
mod Hardware
pub mod Repeated
unfoldable pub use Lock.*
unfoldable pub use Ordered.{critical}
pub use Exclusion.{mutual_exclusion, accumulator-all_done}
pub use Finish.{Runs-finish}
