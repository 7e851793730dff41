-- ===== src/Pnl/Defs.antt =====
-- The data and the methods of src/pnl.rs.
use mathlib.Core.Option
use rust_hft.Common.{
  ℕ, zero, suc, ◌+◌, Option, none, some, List, [], ◌∷◌, ◌++◌, map, if◌then◌else◌, length,
}
use rust_hft.Double.{Double, ◌⊕◌, ◌⊖◌, ◌⊗◌, ◌⊘◌, gt, zero_f, hundred, qty_epsilon, sum}

-- The queue holds (price, remaining quantity), the oldest buy first.
pub record FifoPnl (F : Type 0) : Type 0 where
  pub buy_queue : List (F × F)
  pub realized_pnl : F
  pub buy_notional : F

-- What the loop of `on_sell` leaves.
pub record Matching (F : Type 0) : Type 0 where
  pub queue : List (F × F)
  pub realized : F
  pub remaining : F

pub record PaperAccount (F : Type 0) : Type 0 where
  pub pnl : FifoPnl F
  pub initial_capital : F
  pub cash : F
  pub fee_pct : F
  pub total_fees : F

module _ {F : Type 0} ⦃d : Double F⦄ where
  unfoldable pub new : FifoPnl F
  new = record { buy_queue = []; realized_pnl = zero_f; buy_notional = zero_f }

  unfoldable pub on_buy : FifoPnl F → F → F → FifoPnl F
  on_buy s price qty = record s {
    buy_queue = s.buy_queue ++ ((price, qty) ∷ []);
    buy_notional = s.buy_notional ⊕ price ⊗ qty;
  }

  -- The front lot after a match: it leaves the queue when next to nothing is left of it.
  abbrev pub put_back : F → F → List (F × F) → List (F × F)
  put_back price left rest = if d.le left qty_epsilon then rest else (price, left) ∷ rest

  abbrev pub stopped : List (F × F) → F → F → Matching F
  stopped queue realized remaining = record {
    queue = queue;
    realized = realized;
    remaining = remaining;
  }

  -- The `while` loop of `on_sell`: what is left of the queue, `realized_pnl` and `remaining`. On an
  -- empty queue it ends by its test or by `break`.
  unfoldable pub match_lots : ℕ → F → List (F × F) → F → F → Option (Matching F)
  match_lots zero price queue realized remaining = none
  match_lots (suc fuel) price [] realized remaining = some (stopped [] realized remaining)
  match_lots (suc fuel) price ((buy_price, buy_qty) ∷ rest) realized remaining =
      let matched = d.least remaining buy_qty in
      let next =
        match_lots fuel price (put_back buy_price (buy_qty ⊖ matched) rest)
          (realized ⊕ (price ⊖ buy_price) ⊗ matched) (remaining ⊖ matched) in
      if gt remaining qty_epsilon
      then next
      else some (stopped ((buy_price, buy_qty) ∷ rest) realized remaining)

  -- The state that the loop leaves, and the quantity that it matched.
  abbrev pub settle : FifoPnl F → F → Matching F → FifoPnl F × F
  settle s qty m = (record s { buy_queue = m.queue; realized_pnl = m.realized }, qty ⊖ m.remaining)

  -- Each round but the last removes a lot.
  unfoldable pub on_sell : FifoPnl F → F → F → Option (FifoPnl F × F)
  on_sell s price qty =
      Option.map (settle s qty)
        (match_lots (length s.buy_queue + 2) price s.buy_queue s.realized_pnl qty)

  unfoldable pub return_pct : FifoPnl F → F
  return_pct s =
      if gt s.buy_notional zero_f then s.realized_pnl ⊘ s.buy_notional ⊗ hundred else zero_f

  unfoldable pub position_qty : FifoPnl F → F
  position_qty s = sum (map (λ l. l.1) s.buy_queue)

  unfoldable pub position_notional : FifoPnl F → F
  position_notional s = sum (map (λ l. l.0 ⊗ l.1) s.buy_queue)

  unfoldable pub avg_entry_price : FifoPnl F → Option F
  unfolding position_qty position_notional
  avg_entry_price s =
      let qty = position_qty s in
      if gt qty qty_epsilon then some (position_notional s ⊘ qty) else none

  unfoldable pub unrealized_pnl : FifoPnl F → F → F
  unrealized_pnl s mark_price = sum (map (λ l. (mark_price ⊖ l.0) ⊗ l.1) s.buy_queue)

  unfoldable pub new_account : F → F → PaperAccount F
  unfolding new
  new_account initial_capital fee_pct = record {
    pnl = new;
    initial_capital = initial_capital;
    cash = initial_capital;
    fee_pct = fee_pct;
    total_fees = zero_f;
  }

  -- `notional * self.fee_pct / 100.0`
  abbrev pub fee_on : PaperAccount F → F → F
  fee_on a notional = notional ⊗ a.fee_pct ⊘ hundred

  unfoldable pub account_on_buy : PaperAccount F → F → F → PaperAccount F
  unfolding on_buy
  account_on_buy a price qty =
      let notional = price ⊗ qty in
      let fee = fee_on a notional in
      record a {
        pnl = on_buy a.pnl price qty;
        cash = a.cash ⊖ (notional ⊕ fee);
        total_fees = a.total_fees ⊕ fee;
      }

  -- `account_on_sell` from the matched quantity on.
  abbrev pub credit : PaperAccount F → F → FifoPnl F × F → PaperAccount F
  credit a price (pnl, matched) =
      let notional = price ⊗ matched in
      let fee = fee_on a notional in
      if d.le matched qty_epsilon
      then record a { pnl = pnl }
      else record a { pnl = pnl; cash = a.cash ⊕ (notional ⊖ fee); total_fees = a.total_fees ⊕ fee }

  unfoldable pub account_on_sell : PaperAccount F → F → F → Option (PaperAccount F)
  account_on_sell a price qty = Option.map (credit a price) (on_sell a.pnl price qty)

  abbrev pub position_value : FifoPnl F → Option F → F
  position_value s (some m) = position_qty s ⊗ m
  position_value s none = position_notional s

  unfoldable pub equity : PaperAccount F → Option F → F
  unfolding position_qty position_notional
  equity a mark_price = a.cash ⊕ position_value a.pnl mark_price

  unfoldable pub return_on_capital_pct : PaperAccount F → Option F → F
  unfolding equity
  return_on_capital_pct a mark_price =
      if gt a.initial_capital zero_f
      then (equity a mark_price ⊖ a.initial_capital) ⊘ a.initial_capital ⊗ hundred
      else zero_f
