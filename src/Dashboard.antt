-- ===== src/Dashboard.antt =====
-- src/dashboard/mod.rs: the state that the threads share, and the view of it that the web page gets.
-- Locks and atomics are fields here: each method below is one use of them. `cash_bits` is the double
-- whose bits the program stores.
mod Defs
pub mod Server
pub mod Requests
pub mod History
unfoldable pub use Defs.*
