-- ===== src/Strategy/Momentum/Defs.antt =====
-- The data and the methods of src/strategy/momentum_scalp.rs. A `u32` counter wraps around, as in a
-- build without overflow checks.
use Prim.Native.Nat.{min}
use rust_hft.Common.{
  ℕ, ◌+◌, ◌-◌, ◌%◌, ◌^◌, Bool, true, false, ◌||◌, Option, none, some, List, ◌∷◌, map, ltb, leb,
  if◌then◌else◌, get_or, set, take, replicate,
}
use rust_hft.Double.{Double, ◌⊕◌, ◌⊖◌, ◌⊗◌, ◌⊘◌, gt, ge, zero_f, hundred, sum}
use rust_hft.Types.{OrderbookSnapshot, Signal, buy, sell, hold}

abbrev pub price_buf : ℕ
price_buf = 64

pub record MomentumScalpStrategy (F : Type 0) : Type 0 where
  pub qty : F
  pub max_notional : Option F
  pub lookback_ticks : ℕ
  pub entry_mom_pct : F
  pub imbalance_min : F
  pub tp_pct : F
  pub stop_pct : F
  pub max_hold_ticks : ℕ
  pub cooldown_ticks : ℕ
  pub prices : List F
  pub head : ℕ
  pub filled : ℕ
  pub holding : Bool
  pub entry_price : F
  pub entry_qty : F
  pub held_ticks : ℕ
  pub cooldown_left : ℕ

module _ {F : Type 0} ⦃d : Double F⦄ where
  abbrev pub qty_step : F
  qty_step = d.lit 1 3

  unfoldable pub new : F → ℕ → F → F → F → F → ℕ → ℕ → MomentumScalpStrategy F
  new qty lookback_ticks entry_mom_pct imbalance_min tp_pct stop_pct max_hold_ticks cooldown_ticks =
      record {
        qty = qty;
        max_notional = none;
        lookback_ticks = min lookback_ticks (price_buf - 1);
        entry_mom_pct = entry_mom_pct;
        imbalance_min = imbalance_min;
        tp_pct = tp_pct;
        stop_pct = stop_pct;
        max_hold_ticks = max_hold_ticks;
        cooldown_ticks = cooldown_ticks;
        prices = replicate price_buf zero_f;
        head = 0;
        filled = 0;
        holding = false;
        entry_price = zero_f;
        entry_qty = zero_f;
        held_ticks = 0;
        cooldown_left = 0;
      }

  abbrev pub with_max_notional : MomentumScalpStrategy F → F → MomentumScalpStrategy F
  with_max_notional s budget = record s { max_notional = some budget }

  unfoldable pub default : MomentumScalpStrategy F
  unfolding new
  default = new (d.lit 1 2) 30 (d.lit 5 2) (d.lit 60 2) (d.lit 8 2) (d.lit 6 2) 300 30

  unfoldable pub push_price : MomentumScalpStrategy F → F → MomentumScalpStrategy F
  push_price s mid = record s {
    prices = set s.prices s.head mid;
    head = (s.head + 1) % price_buf;
    filled = if ltb s.filled price_buf then s.filled + 1 else s.filled;
  }

  unfoldable pub lookback_price : MomentumScalpStrategy F → Option F
  lookback_price s =
      if leb s.filled s.lookback_ticks
      then none
      else some (get_or s.prices ((s.head + price_buf - 1 - s.lookback_ticks) % price_buf) zero_f)

  -- The quantity shrunk to the budget, before it is floored to the step.
  abbrev pub capped : Option F → F → F → F
  capped none qty price = qty
  capped (some budget) qty price = if gt price zero_f then d.least qty (budget ⊘ price) else qty

  unfoldable pub entry_qty_at : MomentumScalpStrategy F → F → F
  entry_qty_at s price = d.floor (capped s.max_notional s.qty price ⊘ qty_step) ⊗ qty_step

  -- The arm of `on_orderbook` for an open position.
  unfoldable pub exit : MomentumScalpStrategy F → F → MomentumScalpStrategy F × Signal F
  exit s best_bid =
      let held = (s.held_ticks + 1) % 2 ^ 32 in
      let take_profit = s.entry_price ⊗ (d.lit 1 0 ⊕ s.tp_pct ⊘ hundred) in
      let stop_out = s.entry_price ⊗ (d.lit 1 0 ⊖ s.stop_pct ⊘ hundred) in
      if ge best_bid take_profit || (d.le best_bid stop_out || leb s.max_hold_ticks held)
      then (
        record s { held_ticks = held; holding = false; cooldown_left = s.cooldown_ticks },
        sell best_bid s.entry_qty,
      )
      else (record s { held_ticks = held }, hold)

  -- The return over the lookback window, in percent, once the window is full and its price positive.
  abbrev pub momentum_over : F → Option F → Option F
  momentum_over mid none = none
  momentum_over mid (some past) =
      if gt past zero_f then some ((mid ⊖ past) ⊘ past ⊗ hundred) else none

  -- The volume of the first five levels of a side.
  abbrev pub top_volume : List (F × F) → F
  top_volume levels = sum (map (λ l. l.1) (take 5 levels))

  -- Whether the bids do not outweigh the asks enough.
  abbrev pub is_unskewed : MomentumScalpStrategy F → OrderbookSnapshot F → Bool
  is_unskewed s snapshot =
      let bid_vol = top_volume snapshot.bids in
      let total = bid_vol ⊕ top_volume snapshot.asks in
      d.le total zero_f || d.lt (bid_vol ⊘ total) s.imbalance_min

  -- The gates before an entry, and the entry.
  unfoldable pub enter :
      MomentumScalpStrategy F
      → OrderbookSnapshot F
      → F
      → Option F
      → MomentumScalpStrategy F × Signal F
  unfolding entry_qty_at
  enter s snapshot best_ask none = (s, hold)
  enter s snapshot best_ask (some momentum_pct) =
      let qty = entry_qty_at s best_ask in
      if d.lt momentum_pct s.entry_mom_pct
      then (s, hold)
      else if is_unskewed s snapshot
      then (s, hold)
      else if d.le qty zero_f
      then (s, hold)
      else (
        record s { holding = true; entry_price = best_ask; entry_qty = qty; held_ticks = 0 },
        buy best_ask qty,
      )

  -- `on_orderbook` once the mid price is pushed.
  unfoldable pub decide :
      MomentumScalpStrategy F → OrderbookSnapshot F → F → F → F → MomentumScalpStrategy F × Signal F
  decide s snapshot best_bid best_ask mid =
      if s.holding
      then exit s best_bid
      else if ltb 0 s.cooldown_left
      then (record s { cooldown_left = s.cooldown_left - 1 }, hold)
      else enter s snapshot best_ask (momentum_over mid (lookback_price s))

  abbrev pub mid_price : F → F → F
  mid_price best_bid best_ask = (best_bid ⊕ best_ask) ⊘ d.lit 2 0

  abbrev pub quoted :
      MomentumScalpStrategy F
      → OrderbookSnapshot F
      → List (F × F)
      → List (F × F)
      → MomentumScalpStrategy F × Signal F
  quoted s snapshot ((best_bid, _) ∷ bids) ((best_ask, _) ∷ asks) =
      let mid = mid_price best_bid best_ask in
      decide (push_price s mid) snapshot best_bid best_ask mid
  quoted s snapshot _ _ = (s, hold)

  unfoldable pub on_orderbook :
      MomentumScalpStrategy F → OrderbookSnapshot F → MomentumScalpStrategy F × Signal F
  unfolding decide exit enter lookback_price push_price
  on_orderbook s snapshot = quoted s snapshot snapshot.bids snapshot.asks
