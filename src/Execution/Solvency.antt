-- ===== src/Execution/Solvency.antt =====
-- An accepted buy and the account's cash.
use mathlib.Core.Option
use rust_hft.Common.{◌≡◌, refl, false, ap, true, some, String, ok}
use rust_hft.Common.Int.{pos, ◌≤ℤ◌, int_laws, parts}
use rust_hft.Double.{Double, ◌⊕◌, ◌⊗◌}
use rust_hft.Double.Laws.{IsExact}
use rust_hft.Types.{buy, ValidatedOrder}
use rust_hft.Pnl.{PaperAccount, fee_on, account_on_buy}
use rust_hft.Pnl.Fills.{run, fill}
use rust_hft.Risk.{RiskChecker, Env, notional_of, check}
use rust_hft.Risk.Gates.{check_buy_iff, check-Explains}
use rust_hft.Dashboard.{SharedState}
use rust_hft.Execution.Defs.{PaperExecutor, execute_with_state}
use rust_hft.Execution.Fills.{execute_with_state-fill}

module _ {F : Type 0} ⦃d : Double F⦄ (laws : IsExact F) where
  open laws use {val, val_sub, not_lt}

  account_on_buy_solvent :
      (a : PaperAccount F) (price qty : F)
      → val (price ⊗ qty ⊕ fee_on a (price ⊗ qty)) ≤ℤ val a.cash
      → pos 0 ≤ℤ val (account_on_buy a price qty).cash
  unfolding account_on_buy
  account_on_buy_solvent a price qty h =
      omega (int_laws, h, parts (val_sub a.cash (price ⊗ qty ⊕ fee_on a (price ⊗ qty))))

  -- In exact arithmetic, if the risk checks accept a buy against the account's own cash, and the fee on
  -- it is within the headroom that they add to the notional, then the cash is not below zero once the
  -- order is executed.
  pub execute_accepted_solvent :
      (s s' : RiskChecker F) (env : Env F) (price qty mid : F) (order : ValidatedOrder F)
      (x : PaperExecutor F) (dash : SharedState F) (now : String)
      (r : PaperExecutor F × SharedState F)
      → s.balance_source ≡ true
      → env.cash ≡ dash.account.cash
      → val (price ⊗ qty ⊕ fee_on dash.account (price ⊗ qty)) ≤ℤ val (notional_of price qty)
      → check s env (buy price qty) mid ≡ some (s', ok order)
      → execute_with_state x dash now order ≡ some r
      → pos 0 ≤ℤ val r.1.account.cash
  unfolding run fill Option.bind
  execute_accepted_solvent s s' env price qty mid order x dash now r b c h e f =
      let (_, covers) = (check_buy_iff s env price qty mid).0 (rw e refl) in
      let free : d.lt dash.account.cash (notional_of price qty) ≡ false =
        rw (b, c) at covers.affordable in
      let explained = rw e at (check-Explains s env (buy price qty) mid) in
      let carries : order.signal ≡ buy price qty = ap (λ o. o.signal) explained.0 in
      let filled : some (account_on_buy dash.account price qty) ≡ some r.1.account =
        rw carries at (execute_with_state-fill x dash now order r f) in
      let same : account_on_buy dash.account price qty ≡ r.1.account = cc in
      let enough = not_lt dash.account.cash (notional_of price qty) free in
      rw (← same) (account_on_buy_solvent dash.account price qty (omega (int_laws, h, enough)))
