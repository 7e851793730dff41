-- ===== src/Strategy/Momentum.antt =====
-- src/strategy/momentum_scalp.rs: the momentum scalping strategy.
mod Defs
pub mod Ring
pub mod Timing
unfoldable pub use Defs.*
