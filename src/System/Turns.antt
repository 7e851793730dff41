-- ===== src/System/Turns.antt =====
-- What the thread's rounds do to the strategy and the orders, over the schedules of all tasks.
use rust_hft.Common.{
  ℕ, ◌≡◌, refl, ap, Bool, true, false, Bool-cases, Option, none, some, List, [], ◌∷◌, ◌⊎◌, inl, inr,
  String, length, ltb, if◌then◌else◌,
}
use rust_hft.Double.{Double}
use rust_hft.Types.{MarketEvent, Signal, ValidatedOrder}
use package.text.Mathlib.Text.{◌==◌ as str_eq}
use rust_hft.Strategy.PingPong
use rust_hft.Strategy.Momentum
use rust_hft.Strategy.Trait.{no_op, ping_pong, momentum, Strategy, on_orderbook}
use rust_hft.Strategy.Trades.{open_qty, Moves, on_orderbook-Moves}
use rust_hft.Orderbook
use rust_hft.Execution.{execute_with_state}
use rust_hft.Ingestion.{Codec}
use rust_hft.Pipeline.{Pipeline, Reading, strategy_for}
use rust_hft.Pipeline.Orders.{Sent}
use rust_hft.Pipeline.Rounds.{handle_event-Round}
use rust_hft.System.Defs.{
  System, Action, handle, look, store, put_file, halt_request, resume_request, sample, execute,
  on_handle, on_store, after_execute, next_order, on_execute, step, run_all,
}
use rust_hft.System.Steps.{IsAlong, Holds, map-Holds, run_all-Holds}
use rust_hft.System.Market.{
  View, of_market, of_handle, of_look, of_store, of_put_file, of_halt, of_resume, of_sample,
  of_execute, view, market-Holds,
}

module _ {F : Type 0} ⦃d : Double F⦄ where
  -- A round leaves the strategy and the orders alone, or the strategy moves by a signal and at most one
  -- order is sent, which carries it.
  abbrev pub Turn : Pipeline F → Pipeline F → Type 0
  Turn p p' =
      ((p'.orders ≡ p.orders) × (p'.strat ≡ p.strat))
      ⊎ ((signal : Signal F) × Moves (open_qty p.strat) signal (open_qty p'.strat)
          × ((p'.orders ≡ p.orders)
              ⊎ ((o : ValidatedOrder F) × (p'.orders ≡ o ∷ p.orders) × (o.signal ≡ signal))))

  Sent-Turn :
      (p : Pipeline F) (event : MarketEvent) (at : Reading) (p' : Pipeline F)
      → Sent p event at p'
      → Turn p p'
  Sent-Turn p event at p' (inl h) = inl h
  Sent-Turn p event at p' (inr t) =
      let snap = Orderbook.snapshot p'.book at.unix_ms in
      inr
        ((on_orderbook p.strat snap).1, rw t.strat_moved (on_orderbook-Moves p.strat snap), t.sent)

  pub strategy_for_flat : (name : String) (budget : F) → open_qty (strategy_for name budget) ≡ none
  unfolding strategy_for PingPong.default PingPong.new Momentum.default Momentum.new
  strategy_for_flat name budget = by_name (str_eq name "momentum") (str_eq name "pingpong")
    where
      by_name :
          (a b : Bool)
          → open_qty (
              if a
              then momentum (Momentum.with_max_notional Momentum.default budget)
              else if b
              then ping_pong (PingPong.with_max_notional PingPong.default budget)
              else no_op)
            ≡ none
      by_name true b = refl
      by_name false true = refl
      by_name false false = refl

  module _ (Allows : System F → Action → Type 0) (Q : Strategy F → List (ValidatedOrder F) → Type 0)
      (keeps : (s s' : System F) (at : Reading)
        → Allows s (handle at)
        → on_handle s.queue s at ≡ some s'
        → Turn s.thread s'.thread
        → Q s.thread.strat s.thread.orders
        → Q s'.thread.strat s'.thread.orders) where
    abbrev At : System F → Type 0
    At s = Q s.thread.strat s.thread.orders

    same-At :
        (s s' : System F)
        → s'.thread.strat ≡ s.thread.strat
        → s'.thread.orders ≡ s.thread.orders
        → At s
        → At s'
    same-At s s' e f h = rw (e, f) h

    handle-At :
        (s : System F) (at : Reading) (queue : List MarketEvent)
        → s.queue ≡ queue
        → Allows s (handle at)
        → At s
        → Holds At (on_handle queue s at)
    handle-At s at [] e b h = tt
    handle-At s at (event ∷ queue) e b h =
        let r = handle_event-Round s.thread event at in
        let s' : System F = record s { thread = r.next; queue = queue } in
        rw r.returned (
          keeps s s' at b (rw e (rw r.returned refl)) (Sent-Turn s.thread event at r.next r.is_sent)
            h)

    store-At : (s : System F) (seen : Option Bool) → At s → Holds At (on_store seen s)
    store-At s none h = tt
    store-At s (some flag) h = h

    execute-At :
        (s : System F) (now : String) (o : Option (ValidatedOrder F))
        → At s
        → Holds At (on_execute s now o)
    execute-At s now none h = tt
    execute-At s now (some order) h =
        map-Holds At (after_execute s) (execute_with_state s.executor s.thread.dash_state now order)
          (λ r e. h)

    step_cases :
        (codec : Codec) (timeout_secs : ℕ) (s : System F) (a : Action)
        → View a
        → Allows s a
        → At s
        → Holds At (step codec timeout_secs s a)
    unfolding step
    step_cases codec t s a (of_market m) b h =
        market-Holds At codec t s a m
          (λ s' e. same-At s s' (ap (λ x. x.thread.strat) e) (ap (λ x. x.thread.orders) e) h)
    step_cases codec t s (handle at) of_handle b h = handle-At s at s.queue refl b h
    step_cases codec t s look of_look b h = h
    step_cases codec t s store of_store b h = store-At s s.seen h
    step_cases codec t s (put_file exists) of_put_file b h = h
    step_cases codec t s (halt_request worked) of_halt b h = h
    step_cases codec t s (resume_request worked) of_resume b h = h
    step_cases codec t s sample of_sample b h = h
    step_cases codec t s (execute now) of_execute b h =
        elim (Bool-cases (ltb s.executed (length s.thread.orders))) [
          | inl e ↦ rw e (execute-At s now (next_order s) h)
          | inr e ↦ rw e tt
        ]

    -- What every round keeps of the strategy and the orders, a schedule keeps.
    pub run_all-At :
        (codec : Codec) (timeout_secs : ℕ) (actions : List Action) (s s' : System F)
        → IsAlong Allows codec timeout_secs s actions
        → At s
        → run_all codec timeout_secs s actions ≡ some s'
        → At s'
    run_all-At codec t actions s s' w h e =
        rw e at
          (run_all-Holds Allows At codec t (λ s a. step_cases codec t s a (view a)) actions s w h)
