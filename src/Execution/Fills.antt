-- ===== src/Execution/Fills.antt =====
-- The fills that executed orders stand for, and the account that they leave.
use mathlib.Core.Option
use rust_hft.Common.{
  ◌≡◌, refl, ap, ◌∙◌, Option, Option-cases, none, some, List, [], ◌∷◌, ◌++◌, inl, inr, String,
}
use rust_hft.Double.{Double}
use rust_hft.Types.{Signal, buy, sell, hold, ValidatedOrder}
use rust_hft.Pnl.{PaperAccount, account_on_buy, account_on_sell}
use rust_hft.Pnl.Fills.{Fill, bought, sold, fill, run}
use rust_hft.Dashboard.{SharedState, add_trade, incr}
use rust_hft.Execution.Defs.{
  PaperExecutor, trade_of, with_account, execute_signal, share_signal, execute_with_state,
}

module _ {F : Type 0} where
  abbrev pub fill_of : Signal F → List (Fill F)
  fill_of (buy price qty) = bought price qty ∷ []
  fill_of (sell price qty) = sold price qty ∷ []
  fill_of hold = []

  -- The fills, oldest first, of orders with the newest first.
  abbrev pub fills : List (ValidatedOrder F) → List (Fill F)
  fills [] = []
  fills (order ∷ orders) = fills orders ++ fill_of order.signal

module _ {F : Type 0} ⦃d : Double F⦄ where
  pub run-append :
      (fs gs : List (Fill F)) (a : PaperAccount F)
      → run a (fs ++ gs) ≡ Option.bind (run a fs) (λ b. run b gs)
  unfolding run Option.bind
  run-append [] gs a = refl
  run-append (f ∷ fs) gs a = elim (Option-cases (fill a f)) [
    | inl e ↦ rw e refl
    | inr (b, e) ↦ rw e (run-append fs gs b)
  ]

  share_signal-fill :
      (s : SharedState F) (now id : String) (signal : Signal F) (s' : SharedState F)
      → share_signal s now id signal ≡ some s'
      → run s.account (fill_of signal) ≡ some s'.account
  unfolding add_trade run fill Option.bind
  share_signal-fill s now id (buy price qty) s' e =
      let r =
        add_trade
          (with_account (record s { buy_count = incr s.buy_count })
            (account_on_buy s.account price qty))
          (trade_of now "BUY" price qty id) in
      let same : r ≡ s' = cc in ap (λ x. some x.account) same
  share_signal-fill s now id (sell price qty) s' e =
      elim (Option-cases (account_on_sell s.account price qty)) [
        | inl f ↦ let e' : none ≡ some s' = rw f at e in cc
        | inr (account, f) ↦
            let r =
              add_trade (with_account (record s { sell_count = incr s.sell_count }) account)
                (trade_of now "SELL" price qty id) in
            let e' : some r ≡ some s' = rw f at e in
            let same : r ≡ s' = cc in rw f (ap (λ x. some x.account) same)
      ]
  share_signal-fill s now id hold s' e = let same : s ≡ s' = cc in ap (λ x. some x.account) same

  -- Executing an order books its fill on the account.
  pub execute_with_state-fill :
      (x : PaperExecutor F) (s : SharedState F) (now : String) (order : ValidatedOrder F)
      (r : PaperExecutor F × SharedState F)
      → execute_with_state x s now order ≡ some r
      → run s.account (fill_of order.signal) ≡ some r.1.account
  unfolding execute_with_state
  execute_with_state-fill x s now order r e =
      elim (Option-cases (share_signal s now order.client_order_id order.signal)) [
        | inl f ↦
            let e' : ◌≡◌ {A = Option (PaperExecutor F × SharedState F)} none (some r) = rw f at e in
            cc
        | inr (t, f) ↦
            let e' : ◌≡◌ {A = Option (PaperExecutor F × SharedState F)}
                (some (execute_signal x now order.client_order_id order.signal, t)) (some r) =
              rw f at e in
            let same : (execute_signal x now order.client_order_id order.signal, t) ≡ r = cc in
            share_signal-fill s now order.client_order_id order.signal t f
            ∙ ap (λ x. some x.1.account) same
      ]
