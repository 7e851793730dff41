-- ===== src/Strategy/PingPong.antt =====
-- src/strategy/ping_pong.rs: the spread-capture test strategy.
use rust_hft.Common.{Bool, true, false, Option, none, some, List, ◌∷◌, if◌then◌else◌}
use rust_hft.Double.{Double, ◌⊕◌, ◌⊖◌, ◌⊗◌, ◌⊘◌, gt, ge, zero_f, hundred}
use rust_hft.Types.{OrderbookSnapshot, Signal, buy, sell, hold}

pub record PingPongStrategy (F : Type 0) : Type 0 where
  pub qty : F
  pub max_notional : Option F
  pub min_edge_pct : F
  pub stop_pct : F
  pub holding : Bool
  pub entry_price : F
  pub entry_qty : F

module _ {F : Type 0} ⦃d : Double F⦄ where
  abbrev pub qty_step : F
  qty_step = d.lit 1 3

  unfoldable pub new : F → F → F → PingPongStrategy F
  new qty min_edge_pct stop_pct = record {
    qty = qty;
    max_notional = none;
    min_edge_pct = min_edge_pct;
    stop_pct = stop_pct;
    holding = false;
    entry_price = zero_f;
    entry_qty = zero_f;
  }

  abbrev pub with_max_notional : PingPongStrategy F → F → PingPongStrategy F
  with_max_notional s budget = record s { max_notional = some budget }

  unfoldable pub default : PingPongStrategy F
  unfolding new
  default = new (d.lit 1 2) (d.lit 2 2) (d.lit 5 1)

  -- The quantity shrunk to the budget, before it is floored to the step.
  abbrev pub capped : Option F → F → F → F
  capped none qty price = qty
  capped (some budget) qty price = if gt price zero_f then d.least qty (budget ⊘ price) else qty

  unfoldable pub entry_qty_at : PingPongStrategy F → F → F
  entry_qty_at s price = d.floor (capped s.max_notional s.qty price ⊘ qty_step) ⊗ qty_step

  -- `on_orderbook` from the best bid and ask on: flat, and holding.
  unfoldable pub enter : PingPongStrategy F → F → PingPongStrategy F × Signal F
  unfolding entry_qty_at
  enter s best_bid =
      let qty = entry_qty_at s best_bid in
      if d.le qty zero_f
      then (s, hold)
      else (record s { holding = true; entry_price = best_bid; entry_qty = qty }, buy best_bid qty)

  abbrev pub take_profit : PingPongStrategy F → F
  take_profit s = s.entry_price ⊗ (d.lit 1 0 ⊕ s.min_edge_pct ⊘ hundred)

  abbrev pub stop_out : PingPongStrategy F → F
  stop_out s = s.entry_price ⊗ (d.lit 1 0 ⊖ s.stop_pct ⊘ hundred)

  unfoldable pub exit : PingPongStrategy F → F → F → PingPongStrategy F × Signal F
  exit s best_bid best_ask =
      if ge best_ask (take_profit s)
      then (record s { holding = false }, sell best_ask s.entry_qty)
      else if d.le best_bid (stop_out s)
      then (record s { holding = false }, sell best_bid s.entry_qty)
      else (s, hold)

  abbrev pub quoted :
      PingPongStrategy F → List (F × F) → List (F × F) → PingPongStrategy F × Signal F
  quoted s ((best_bid, _) ∷ bids) ((best_ask, _) ∷ asks) =
      if s.holding then exit s best_bid best_ask else enter s best_bid
  quoted s _ _ = (s, hold)

  unfoldable pub on_orderbook :
      PingPongStrategy F → OrderbookSnapshot F → PingPongStrategy F × Signal F
  unfolding enter exit
  on_orderbook s snapshot = quoted s snapshot.bids snapshot.asks
