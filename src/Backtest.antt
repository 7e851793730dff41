-- ===== src/Backtest.antt =====
-- src/backtest/mod.rs: recorded updates through the book, a strategy and the risk checks, and the
-- profit of the trades that came out.
mod Defs
mod Rounds
pub mod Trades
pub mod Clock
pub mod Live
pub mod Predictions
unfoldable pub use Defs.*
