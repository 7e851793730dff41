-- ===== src/Execution.antt =====
-- src/execution.rs: paper execution of the orders that passed the risk checks.
mod Defs
pub mod Mirror
pub mod Fills
pub mod Positions
pub mod OrderLog
pub mod Solvency
unfoldable pub use Defs.*
