-- ===== src/Execution/Mirror.antt =====
-- What executing an order keeps in step.
use mathlib.Core.Option
use rust_hft.Common.{
  ◌≡◌, refl, sym, ◌∙◌, ap, Option, Option-cases, none, some, inl, inr, String, arith,
}
use rust_hft.Double.{Double}
use rust_hft.Double.Laws.{IsFloat}
use rust_hft.Types.{Signal, buy, sell, hold, ValidatedOrder}
use rust_hft.Pnl.Totality.{HasFiniteLots}
use rust_hft.Pnl.Fills.{account_on_sell_total}
use rust_hft.Pnl.{account_on_buy, account_on_sell}
use rust_hft.Dashboard.{SharedState, add_trade, incr}
use rust_hft.Execution.Defs.{
  PaperExecutor, trade_of, with_account, execute_signal, share_signal, execute, execute_with_state,
}

module _ {F : Type 0} ⦃d : Double F⦄ where
  -- The mirrored balance is the account's cash, and the executor and the dashboard count the same
  -- orders.
  pub record InStep (x : PaperExecutor F) (s : SharedState F) : Type 0 where
    pub mirror : s.cash_bits ≡ s.account.cash
    pub buys : x.buy_count ≡ s.buy_count
    pub sells : x.sell_count ≡ s.sell_count

  share-InStep :
      (x : PaperExecutor F) (s : SharedState F) (now id : String) (signal : Signal F)
      (s' : SharedState F)
      → InStep x s
      → share_signal s now id signal ≡ some s'
      → InStep (execute_signal x now id signal) s'
  unfolding add_trade
  share-InStep x s now id (buy price qty) s' h e =
      let r =
        add_trade
          (with_account (record s { buy_count = incr s.buy_count })
            (account_on_buy s.account price qty))
          (trade_of now "BUY" price qty id) in
      let same : r ≡ s' = cc in
      rw (← same) (record { mirror = refl; buys = ap incr h.buys; sells = h.sells })
  share-InStep x s now id (sell price qty) s' h e =
      elim (Option-cases (account_on_sell s.account price qty)) [
        | inl f ↦ let e' : none ≡ some s' = rw f at e in cc
        | inr (account, f) ↦
            let r =
              add_trade (with_account (record s { sell_count = incr s.sell_count }) account)
                (trade_of now "SELL" price qty id) in
            let e' : some r ≡ some s' = rw f at e in
            let same : r ≡ s' = cc in
            rw (← same) (record { mirror = refl; buys = h.buys; sells = ap incr h.sells })
      ]
  share-InStep x s now id hold s' h e = let same : s ≡ s' = cc in rw (← same) h

  -- Every executed order leaves the mirrored balance at the account's cash and the two pairs of
  -- counters equal, if they were so before.
  pub execute_with_state-InStep :
      (x : PaperExecutor F) (s : SharedState F) (now : String) (order : ValidatedOrder F)
      (x' : PaperExecutor F) (s' : SharedState F)
      → InStep x s
      → execute_with_state x s now order ≡ some (x', s')
      → InStep x' s'
  unfolding execute_with_state
  execute_with_state-InStep x s now order x' s' h e =
      elim (Option-cases (share_signal s now order.client_order_id order.signal)) [
        | inl f ↦
            let e' : ◌≡◌ {A = Option (PaperExecutor F × SharedState F)} none (some (x', s')) =
              rw f at e in
            cc
        | inr (t, f) ↦
            let e' : ◌≡◌ {A = Option (PaperExecutor F × SharedState F)}
                (some (execute_signal x now order.client_order_id order.signal, t))
                (some (x', s')) =
              rw f at e in
            let done = share-InStep x s now order.client_order_id order.signal t h f in
            let same_x : execute_signal x now order.client_order_id order.signal ≡ x' =
              ground arith in
            let same_s : t ≡ s' = ground arith in rw (← same_x, ← same_s) done
      ]

  share_signal-halt_flag :
      (s : SharedState F) (now id : String) (signal : Signal F) (s' : SharedState F)
      → share_signal s now id signal ≡ some s'
      → s'.halt_flag ≡ s.halt_flag
  unfolding add_trade
  share_signal-halt_flag s now id (buy price qty) s' e =
      let r =
        add_trade
          (with_account (record s { buy_count = incr s.buy_count })
            (account_on_buy s.account price qty))
          (trade_of now "BUY" price qty id) in
      let same : r ≡ s' = cc in sym (ap (λ x. x.halt_flag) same)
  share_signal-halt_flag s now id (sell price qty) s' e =
      elim (Option-cases (account_on_sell s.account price qty)) [
        | inl f ↦ let e' : none ≡ some s' = rw f at e in cc
        | inr (account, f) ↦
            let r =
              add_trade (with_account (record s { sell_count = incr s.sell_count }) account)
                (trade_of now "SELL" price qty id) in
            let e' : some r ≡ some s' = rw f at e in
            let same : r ≡ s' = cc in sym (ap (λ x. x.halt_flag) same)
      ]
  share_signal-halt_flag s now id hold s' e =
      let same : s ≡ s' = cc in sym (ap (λ x. x.halt_flag) same)

  -- Executing leaves the kill switch alone.
  pub execute_with_state-halt_flag :
      (x : PaperExecutor F) (s : SharedState F) (now : String) (order : ValidatedOrder F)
      (r : PaperExecutor F × SharedState F)
      → execute_with_state x s now order ≡ some r
      → r.1.halt_flag ≡ s.halt_flag
  unfolding execute_with_state
  execute_with_state-halt_flag x s now order r e =
      elim (Option-cases (share_signal s now order.client_order_id order.signal)) [
        | inl f ↦
            let e' : ◌≡◌ {A = Option (PaperExecutor F × SharedState F)} none (some r) = rw f at e in
            cc
        | inr (t, f) ↦
            let e' : ◌≡◌ {A = Option (PaperExecutor F × SharedState F)}
                (some (execute_signal x now order.client_order_id order.signal, t)) (some r) =
              rw f at e in
            let same : (execute_signal x now order.client_order_id order.signal, t) ≡ r = cc in
            sym (ap (λ x. x.1.halt_flag) same)
            ∙ share_signal-halt_flag s now order.client_order_id order.signal t f
      ]

  -- Executing returns whenever the account's lots are finite.
  pub execute_with_state_total :
      (laws : IsFloat F) (x : PaperExecutor F) (s : SharedState F) (now : String)
      (order : ValidatedOrder F)
      → HasFiniteLots s.account.pnl.buy_queue
      → (r : PaperExecutor F × SharedState F) × (execute_with_state x s now order ≡ some r)
  unfolding execute_with_state
  execute_with_state_total laws x s now order h =
      let (t, e) = shared order.signal in ((execute x now order, t), rw e refl)
    where
      shared :
          (signal : Signal F)
          → (t : SharedState F) × (share_signal s now order.client_order_id signal ≡ some t)
      shared (buy price qty) = (_, refl)
      shared (sell price qty) =
          let (a, e) = account_on_sell_total laws s.account price qty h in (_, ap (Option.map _) e)
      shared hold = (s, refl)
