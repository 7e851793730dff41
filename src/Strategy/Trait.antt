-- ===== src/Strategy/Trait.antt =====
-- src/strategy/mod.rs: the trait and the strategy that does nothing.
use rust_hft.Types.{OrderbookSnapshot, Signal, hold}
use rust_hft.Double.{Double}
use rust_hft.Strategy.PingPong
use rust_hft.Strategy.PingPong.{PingPongStrategy}
use rust_hft.Strategy.Momentum
use rust_hft.Strategy.Momentum.{MomentumScalpStrategy}

pub data Strategy (F : Type 0) : Type 0 where
  no_op : Strategy F
  ping_pong : PingPongStrategy F → Strategy F
  momentum : MomentumScalpStrategy F → Strategy F

module _ {F : Type 0} ⦃d : Double F⦄ where
  unfoldable pub on_orderbook : Strategy F → OrderbookSnapshot F → Strategy F × Signal F
  on_orderbook no_op snapshot = (no_op, hold)
  on_orderbook (ping_pong s) snapshot =
      let (s', signal) = PingPong.on_orderbook s snapshot in (ping_pong s', signal)
  on_orderbook (momentum s) snapshot =
      let (s', signal) = Momentum.on_orderbook s snapshot in (momentum s', signal)
