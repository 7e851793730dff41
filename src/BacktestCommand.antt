-- ===== src/BacktestCommand.antt =====
-- The program of src/bin/backtest.rs: its command line, and one backtest.
mod Defs
pub mod Args
pub mod Baseline
unfoldable pub use Defs.*
