-- ===== src/System/Ledger.antt =====
-- The orders from the thread to the executor, and the account.
use rust_hft.Common.{
  ℕ, ◌≤◌, ◌<◌, arith, ◌≡◌, refl, sym, ap, ◌∙◌, Bool, true, false, Bool-cases, Option, none, some,
  List, [], ◌∷◌, inl, inr, String, length, ltb, if◌then◌else◌,
}
use rust_hft.Double.{Double}
use rust_hft.Types.{MarketEvent, ValidatedOrder}
use rust_hft.Config.{Config}
use rust_hft.Execution.{PaperExecutor, execute_with_state}
use rust_hft.Execution.Mirror.{InStep, execute_with_state-InStep}
use rust_hft.Dashboard.{SharedState, sample_second}
use rust_hft.Dashboard
use rust_hft.Ingestion.{Codec}
use rust_hft.Pipeline
use rust_hft.Pipeline.{Pipeline, Reading}
use rust_hft.Execution
use rust_hft.Pipeline.Orders.{Sent}
use rust_hft.Pipeline.Rounds.{handle_event-Round}
use rust_hft.System.Defs.{
  System, Action, handle, look, store, put_file, halt_request, resume_request, sample, execute,
  with_halt, begin, on_handle, on_store, after_execute, next_order, on_execute, step, run_all,
}
use rust_hft.System.Steps.{IsAny, IsAlong-IsAny, Holds, map-Holds, run_all-Holds}
use rust_hft.System.Market.{
  View, of_market, of_handle, of_look, of_store, of_put_file, of_halt, of_resume, of_sample,
  of_execute, view, IsApart, market-Holds,
}

module _ {F : Type 0} ⦃d : Double F⦄ where
  -- The executor and the dashboard agree, and no order was executed that was not sent.
  pub record IsKept (s : System F) : Type 0 where
    pub in_step : InStep s.executor s.thread.dash_state
    pub no_more : s.executed ≤ length s.thread.orders

  apart-IsKept : (s s' : System F) → IsKept s → IsApart s s' → IsKept s'
  apart-IsKept s s' h e = record {
    in_step = record {
      mirror =
          ap (λ x. x.thread.dash_state.cash_bits) e
          ∙ h.in_step.mirror
          ∙ sym (ap (λ x. x.thread.dash_state.account.cash) e);
      buys =
          ap (λ x. x.executor.buy_count) e
          ∙ h.in_step.buys
          ∙ sym (ap (λ x. x.thread.dash_state.buy_count) e);
      sells =
          ap (λ x. x.executor.sell_count) e
          ∙ h.in_step.sells
          ∙ sym (ap (λ x. x.thread.dash_state.sell_count) e);
    };
    no_more =
        let x = ap (λ x. x.executed) e in let y = ap (λ x. length x.thread.orders) e in omega arith;
  }

  pub orders_grow :
      (p : Pipeline F) (event : MarketEvent) (at : Reading) (p' : Pipeline F)
      → Sent p event at p'
      → length p.orders ≤ length p'.orders
  orders_grow p event at p' (inl (e, f)) = rw e (omega arith)
  orders_grow p event at p' (inr t) = elim t.sent [
    | inl e ↦ rw e (omega arith)
    | inr (o, e, f) ↦ rw e (omega arith)
  ]

  handle-IsKept :
      (s : System F) (queue : List MarketEvent) (at : Reading)
      → IsKept s
      → Holds IsKept (on_handle queue s at)
  handle-IsKept s [] at h = tt
  handle-IsKept s (event ∷ queue) at h =
      let r = handle_event-Round s.thread event at in
      let more = orders_grow s.thread event at r.next r.is_sent in
      let few = h.no_more in
      rw r.returned (record {
        in_step = record {
          mirror = r.kept.cash_kept ∙ h.in_step.mirror ∙ sym (ap (λ a. a.cash) r.kept.account_kept);
          buys = h.in_step.buys ∙ sym r.kept.buys_kept;
          sells = h.in_step.sells ∙ sym r.kept.sells_kept;
        };
        no_more = omega arith;
      })

  with_halt-IsKept : (s : System F) (flag : Bool) → IsKept s → IsKept (with_halt s flag)
  with_halt-IsKept s flag h = record {
    in_step = record { mirror = h.in_step.mirror; buys = h.in_step.buys; sells = h.in_step.sells };
    no_more = h.no_more;
  }

  store-IsKept : (s : System F) (seen : Option Bool) → IsKept s → Holds IsKept (on_store seen s)
  store-IsKept s none h = tt
  store-IsKept s (some flag) h =
      with_halt-IsKept (record s { seen = none }) flag
        (record { in_step = h.in_step; no_more = h.no_more })

  execute-IsKept :
      (s : System F) (now : String) (o : Option (ValidatedOrder F))
      → s.executed < length s.thread.orders
      → IsKept s
      → Holds IsKept (on_execute s now o)
  execute-IsKept s now none n h = tt
  execute-IsKept s now (some order) n h =
      map-Holds IsKept (after_execute s)
        (execute_with_state s.executor s.thread.dash_state now order)
        (λ (x, dash) e. record {
          in_step =
              execute_with_state-InStep s.executor s.thread.dash_state now order x dash h.in_step e;
          no_more = omega arith;
        })

  step_cases :
      (codec : Codec) (timeout_secs : ℕ) (s : System F) (a : Action)
      → View a
      → IsAny s a
      → IsKept s
      → Holds IsKept (step codec timeout_secs s a)
  unfolding step sample_second
  step_cases codec t s a (of_market m) b h =
      market-Holds IsKept codec t s a m (λ s'. apart-IsKept s s' h)
  step_cases codec t s (handle at) of_handle b h = handle-IsKept s s.queue at h
  step_cases codec t s look of_look b h = record { in_step = h.in_step; no_more = h.no_more }
  step_cases codec t s store of_store b h = store-IsKept s s.seen h
  step_cases codec t s (put_file exists) of_put_file b h = record {
    in_step = h.in_step;
    no_more = h.no_more;
  }
  step_cases codec t s (halt_request worked) of_halt b h =
      with_halt-IsKept (record s { halt_file = if worked then true else s.halt_file }) true
        (record { in_step = h.in_step; no_more = h.no_more })
  step_cases codec t s (resume_request worked) of_resume b h =
      with_halt-IsKept (record s { halt_file = if worked then false else s.halt_file }) false
        (record { in_step = h.in_step; no_more = h.no_more })
  step_cases codec t s sample of_sample b h = record {
    in_step = record { mirror = h.in_step.mirror; buys = h.in_step.buys; sells = h.in_step.sells };
    no_more = h.no_more;
  }
  step_cases codec t s (execute now) of_execute b h =
      elim (Bool-cases (ltb s.executed (length s.thread.orders))) [
        | inl e ↦ rw e (execute-IsKept s now (next_order s) (ground arith) h)
        | inr e ↦ rw e tt
      ]

  step-IsKept :
      (codec : Codec) (timeout_secs : ℕ) (s : System F) (a : Action)
      → IsAny s a
      → IsKept s
      → Holds IsKept (step codec timeout_secs s a)
  step-IsKept codec t s a = step_cases codec t s a (view a)

  -- From the start on, after any steps of the tasks in any order, the balance that the risk checks read
  -- is the account's cash, the executor and the dashboard count the same buys and sells, and no order
  -- was executed that the thread had not sent.
  pub run_all-IsKept :
      (cfg : Config F) (halt : Bool) (now : ℕ) (codec : Codec) (timeout_secs : ℕ)
      (actions : List Action) (s : System F)
      → run_all codec timeout_secs (begin cfg halt now) actions ≡ some s
      → IsKept s
  unfolding begin Pipeline.start Execution.new Dashboard.new
  run_all-IsKept cfg halt now codec t actions s e = rw e at (
      run_all-Holds IsAny IsKept codec t (step-IsKept codec t) actions (begin cfg halt now)
        (IsAlong-IsAny codec t actions (begin cfg halt now))
        (record {
          in_step = record { mirror = refl; buys = refl; sells = refl };
          no_more = omega arith;
        }))
