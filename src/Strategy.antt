-- ===== src/Strategy.antt =====
-- src/strategy: the strategies that `crypto-trader` and `backtest` can run, and the trait that they
-- implement: a boxed strategy is a value of one of three kinds.
pub mod PingPong
pub mod Momentum
pub mod Trait
pub mod Trades
