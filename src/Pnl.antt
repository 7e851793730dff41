-- ===== src/Pnl.antt =====
-- src/pnl.rs: FIFO profit and loss, and the paper account that wraps it. A method returns the new
-- state; `none` is a loop that ran out of fuel.
mod Defs
pub mod Totality
pub mod Fifo
pub mod Ledger
pub mod Fills
pub mod Account
unfoldable pub use Defs.*
