-- ===== src/DataLoader.antt =====
-- The code of src/backtest/data_loader.rs: recorded updates, line by line, and made-up ones.
mod Defs
pub mod Lines
pub mod Synthetic
unfoldable pub use Defs.*
