-- ===== src/Tests/Accounts.antt =====
-- The ledger and the paper account on concrete inputs.
use mathlib.Core.Option
use rust_hft.Common.{◌≡◌, refl, some, List, [], ◌∷◌, ◌⊎◌, arith}
use rust_hft.Common.Int.{ℤ, pos, ◌+ℤ◌, ◌-ℤ◌, ◌≤ℤ◌}
use rust_hft.Double.Fixed.{fixed, whole, whole-IsExact, whole-IsFloat}
use rust_hft.Pnl
use rust_hft.Pnl.{
  FifoPnl, PaperAccount, on_sell, match_lots, new_account, equity, account_on_sell, account_on_buy,
  on_buy,
}
use rust_hft.Pnl.Totality.{HasFiniteLots, on_sell_finite}
use rust_hft.Pnl.Fifo.{sold_from, lots_of, on_sell-sold_from}
use rust_hft.Pnl.Ledger.{cost, volume, HasLots, on_sell_accounts}
use rust_hft.Pnl.Fills.{Fill, bought, sold, fill, run}
use rust_hft.Tests.Data.{decimal_double}

-- Two open buys in whole numbers.
abbrev ledger : FifoPnl ℤ
ledger = record {
  buy_queue = (pos 100, pos 2) ∷ (pos 110, pos 3) ∷ [];
  realized_pnl = pos 0;
  buy_notional = pos 530;
}

-- What a sell of 3 at 120 leaves.
abbrev ledger_after : FifoPnl ℤ
ledger_after = record {
  buy_queue = (pos 110, pos 2) ∷ [];
  realized_pnl = pos 50;
  buy_notional = pos 530;
}

sell_run : on_sell ⦃d = whole⦄ ledger (pos 120) (pos 3) ≡ some (ledger_after, pos 3)
unfolding on_sell match_lots fixed
sell_run = refl

on_sell_accounts_example :
    (pos 0 ≤ℤ pos 3)
    × (pos 3 ≤ℤ pos 3)
    × (pos 3 ≤ℤ volume ⦃d = whole⦄ whole-IsExact ledger.buy_queue)
    × ((pos 3 ≡ pos 3) ⊎ (pos 3 ≡ volume ⦃d = whole⦄ whole-IsExact ledger.buy_queue))
    × (volume ⦃d = whole⦄ whole-IsExact ledger_after.buy_queue
        ≡ volume ⦃d = whole⦄ whole-IsExact ledger.buy_queue -ℤ pos 3)
    × (pos 50 +ℤ cost ⦃d = whole⦄ whole-IsExact ledger.buy_queue
        ≡ pos 0 +ℤ pos 360 +ℤ cost ⦃d = whole⦄ whole-IsExact ledger_after.buy_queue)
    × HasLots ⦃d = whole⦄ whole-IsExact ledger_after.buy_queue
unfolding whole-IsExact
on_sell_accounts_example =
    on_sell_accounts ⦃d = whole⦄ whole-IsExact ledger (pos 120) (pos 3) ledger_after (pos 3)
      (omega arith, (omega arith, tt)) (omega arith) sell_run

on_sell-sold_from_example :
    (lots_of ⦃d = whole⦄ whole-IsExact ledger_after.buy_queue
      ≡ sold_from (pos 3) (lots_of ⦃d = whole⦄ whole-IsExact ledger.buy_queue))
    × (ledger_after.buy_notional ≡ ledger.buy_notional)
unfolding whole-IsExact
on_sell-sold_from_example =
    on_sell-sold_from ⦃d = whole⦄ whole-IsExact ledger (pos 120) (pos 3) ledger_after (pos 3)
      sell_run

on_sell_finite_example :
    (r : FifoPnl ℤ × ℤ) × (on_sell ⦃d = whole⦄ ledger (pos 120) (pos 3) ≡ some r)
    × HasFiniteLots ⦃d = whole⦄ r.0.buy_queue
unfolding fixed
on_sell_finite_example =
    on_sell_finite ⦃d = whole⦄ whole-IsFloat ledger (pos 120) (pos 3) (refl, (refl, tt))

-- A buy of 2 at 100 and a sell of 2 at 130 from a new account of 1000, with a fee of 1 percent.
abbrev fills : List (Fill ℤ)
fills = bought (pos 100) (pos 2) ∷ sold (pos 130) (pos 2) ∷ []

abbrev account_after : PaperAccount ℤ
account_after = record {
  pnl = record { buy_queue = []; realized_pnl = pos 60; buy_notional = pos 200 };
  initial_capital = pos 1000;
  cash = pos 1056;
  fee_pct = pos 1;
  total_fees = pos 4;
}

fills_run : run ⦃d = whole⦄ (new_account ⦃d = whole⦄ (pos 1000) (pos 1)) fills ≡ some account_after
unfolding run fill new_account Option.bind account_on_buy account_on_sell on_sell on_buy match_lots
    Pnl.new fixed
fills_run = refl
