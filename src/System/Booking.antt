-- ===== src/System/Booking.antt =====
-- The paper account against the orders that the thread sent, over the schedules of all tasks.
use mathlib.Core.Option
use rust_hft.Common.{
  ℕ, suc, ◌+◌, ◌-◌, ◌≤◌, ◌<◌, arith, ◌≡◌, refl, ap, ◌∙◌, Bool, Bool-cases, Option, none, some, List,
  [], ◌∷◌, inl, inr, String, length, ltb, drop, drop-get_elem?, get_elem?,
}
use rust_hft.Double.{Double}
use rust_hft.Types.{MarketEvent, ValidatedOrder}
use rust_hft.Config.{Config}
use rust_hft.Pnl.{PaperAccount, new_account}
use rust_hft.Pnl.Fills.{run}
use rust_hft.Execution.{execute_with_state}
use rust_hft.Execution.OrderLog.{Logs, lines_of, execute_with_state-Logs}
use rust_hft.Execution.Fills.{fills, fill_of, run-append, execute_with_state-fill}
use rust_hft.Dashboard.{sample_second}
use rust_hft.Dashboard
use rust_hft.Ingestion.{Codec}
use rust_hft.Pipeline
use rust_hft.Pipeline.{Pipeline, Reading}
use rust_hft.Execution
use rust_hft.Pipeline.Orders.{Sent}
use rust_hft.Pipeline.Rounds.{handle_event-Round}
use rust_hft.System.Defs.{
  System, Action, handle, look, store, put_file, halt_request, resume_request, sample, execute,
  begin, on_handle, on_store, after_execute, next_order, on_execute, step, run_all,
}
use rust_hft.System.Steps.{IsAny, IsAlong-IsAny, Holds, map-Holds, run_all-Holds}
use rust_hft.System.Market.{
  View, of_market, of_handle, of_look, of_store, of_put_file, of_halt, of_resume, of_sample,
  of_execute, view, market-Holds,
}

module _ {F : Type 0} ⦃d : Double F⦄ where
  -- The orders that the executor has taken, the newest first.
  abbrev pub taken : ℕ → List (ValidatedOrder F) → List (ValidatedOrder F)
  taken executed orders = drop (length orders - executed) orders

  taken_sent :
      (executed : ℕ) (order : ValidatedOrder F) (orders : List (ValidatedOrder F))
      → executed ≤ length orders
      → taken executed (order ∷ orders) ≡ taken executed orders
  taken_sent executed order orders h =
      let e : suc (length orders) - executed ≡ suc (length orders - executed) = omega arith in
      ap (λ i. drop i (order ∷ orders)) e

  taken_next :
      (executed : ℕ) (order : ValidatedOrder F) (orders : List (ValidatedOrder F))
      → executed < length orders
      → get_elem? orders (length orders - 1 - executed) ≡ some order
      → taken (executed + 1) orders ≡ order ∷ taken executed orders
  taken_next executed order orders h e =
      let f : length orders - (executed + 1) ≡ length orders - 1 - executed = omega arith in
      let g : suc (length orders - 1 - executed) ≡ length orders - executed = omega arith in
      ap (λ i. drop i orders) f
      ∙ drop-get_elem? (length orders - 1 - executed) orders order e
      ∙ ap (λ i. order ∷ drop i orders) g

  module _ (first : PaperAccount F) (symbol : String) where
    -- The account is what the fills of the orders taken make of the first one, and the order log has
    -- their lines.
    pub record Booked (s : System F) : Type 0 where
      pub account_is :
          run first (fills (taken s.executed s.thread.orders)) ≡ some s.thread.dash_state.account
      pub log_is : Logs symbol (lines_of symbol (taken s.executed s.thread.orders)) s.executor

    record IsBooked (s : System F) : Type 0 where
      booked : Booked s
      few : s.executed ≤ length s.thread.orders

    same-IsBooked :
        (s s' : System F)
        → s'.thread.orders ≡ s.thread.orders
        → s'.executed ≡ s.executed
        → s'.thread.dash_state.account ≡ s.thread.dash_state.account
        → s'.executor ≡ s.executor
        → IsBooked s
        → IsBooked s'
    same-IsBooked s s' e f g i h = record {
      booked = record {
        account_is = rw (e, f, g) h.booked.account_is;
        log_is = rw (e, f, i) h.booked.log_is;
      };
      few = rw (e, f) h.few;
    }

    Sent-IsBooked :
        (s s' : System F) (event : MarketEvent) (at : Reading)
        → Sent s.thread event at s'.thread
        → s'.executed ≡ s.executed
        → s'.thread.dash_state.account ≡ s.thread.dash_state.account
        → s'.executor ≡ s.executor
        → IsBooked s
        → IsBooked s'
    Sent-IsBooked s s' event at (inl (e, _)) f g i h = same-IsBooked s s' e f g i h
    Sent-IsBooked s s' event at (inr t) f g i h = elim t.sent [
      | inl e ↦ same-IsBooked s s' e f g i h
      | inr (o, e, _) ↦ record {
        booked =
            let same = taken_sent s.executed o s.thread.orders h.few in
            record {
              account_is = rw (e, f, g, same) h.booked.account_is;
              log_is = rw (e, f, i, same) h.booked.log_is;
            };
        few = let k = h.few in rw (e, f) (omega arith);
      }
    ]

    handle-IsBooked :
        (s : System F) (queue : List MarketEvent) (at : Reading)
        → IsBooked s
        → Holds IsBooked (on_handle queue s at)
    handle-IsBooked s [] at h = tt
    handle-IsBooked s (event ∷ queue) at h =
        let r = handle_event-Round s.thread event at in
        rw r.returned (
          Sent-IsBooked s (record s { thread = r.next; queue = queue }) event at r.is_sent refl
            r.kept.account_kept refl h)

    store-IsBooked :
        (s : System F) (seen : Option Bool) → IsBooked s → Holds IsBooked (on_store seen s)
    store-IsBooked s none h = tt
    store-IsBooked s (some flag) h = same-IsBooked s _ refl refl refl refl h

    execute-IsBooked :
        (s : System F) (now : String) (o : Option (ValidatedOrder F))
        → next_order s ≡ o
        → s.executed < length s.thread.orders
        → IsBooked s
        → Holds IsBooked (on_execute s now o)
    unfolding Option.bind
    execute-IsBooked s now none e n h = tt
    execute-IsBooked s now (some order) e n h =
        map-Holds IsBooked (after_execute s)
          (execute_with_state s.executor s.thread.dash_state now order)
          (λ r f. record {
            booked =
                let next = taken_next s.executed order s.thread.orders n e in
                record {
                  account_is =
                      ap (λ os. run first (fills os)) next
                      ∙ run-append (fills (taken s.executed s.thread.orders)) (fill_of order.signal)
                          first
                      ∙ ap (λ o. Option.bind o (λ b. run b (fill_of order.signal)))
                          h.booked.account_is
                      ∙ execute_with_state-fill s.executor s.thread.dash_state now order r f;
                  log_is = rw next (
                      execute_with_state-Logs s.executor s.thread.dash_state now order r symbol
                        (lines_of symbol (taken s.executed s.thread.orders)) f h.booked.log_is);
                };
            few = omega arith;
          })

    step_cases :
        (codec : Codec) (timeout_secs : ℕ) (s : System F) (a : Action)
        → View a
        → IsAny s a
        → IsBooked s
        → Holds IsBooked (step codec timeout_secs s a)
    unfolding step sample_second
    step_cases codec t s a (of_market m) b h = market-Holds IsBooked codec t s a m (λ s' e.
        same-IsBooked s s' (ap (λ x. x.thread.orders) e) (ap (λ x. x.executed) e)
          (ap (λ x. x.thread.dash_state.account) e) (ap (λ x. x.executor) e) h)
    step_cases codec t s (handle at) of_handle b h = handle-IsBooked s s.queue at h
    step_cases codec t s look of_look b h = same-IsBooked s _ refl refl refl refl h
    step_cases codec t s store of_store b h = store-IsBooked s s.seen h
    step_cases codec t s (put_file exists) of_put_file b h = same-IsBooked s _ refl refl refl refl h
    step_cases codec t s (halt_request worked) of_halt b h = same-IsBooked s _ refl refl refl refl h
    step_cases codec t s (resume_request worked) of_resume b h =
        same-IsBooked s _ refl refl refl refl h
    step_cases codec t s sample of_sample b h = same-IsBooked s _ refl refl refl refl h
    step_cases codec t s (execute now) of_execute b h =
        elim (Bool-cases (ltb s.executed (length s.thread.orders))) [
          | inl e ↦ rw e (execute-IsBooked s now (next_order s) refl (ground arith) h)
          | inr e ↦ rw e tt
        ]

    step-IsBooked :
        (codec : Codec) (timeout_secs : ℕ) (s : System F) (a : Action)
        → IsAny s a
        → IsBooked s
        → Holds IsBooked (step codec timeout_secs s a)
    step-IsBooked codec t s a = step_cases codec t s a (view a)

  -- From the start on, after any steps of the tasks in any order, the account in the dashboard's state
  -- is just what the fills of the orders that the executor has taken, one after the other in the order
  -- in which the thread sent them, make of a new account; and the order log has just one line for each
  -- of them, in that order and with its side, symbol, quantity, price and identifier.
  pub run_all-Booked :
      (cfg : Config F) (halt : Bool) (now : ℕ) (codec : Codec) (timeout_secs : ℕ)
      (actions : List Action) (s : System F)
      → run_all codec timeout_secs (begin cfg halt now) actions ≡ some s
      → Booked (new_account cfg.paper.initial_capital_usdt cfg.paper.fee_pct) cfg.symbol s
  unfolding begin Pipeline.start Execution.new Dashboard.new run
  run_all-Booked cfg halt now codec t actions s e =
      let first = new_account cfg.paper.initial_capital_usdt cfg.paper.fee_pct in
      let h : IsBooked first cfg.symbol s = rw e at (
        run_all-Holds IsAny (IsBooked first cfg.symbol) codec t
          (step-IsBooked first cfg.symbol codec t) actions (begin cfg halt now)
          (IsAlong-IsAny codec t actions (begin cfg halt now))
          (record {
            booked = record { account_is = refl; log_is = (refl, refl) };
            few = omega arith;
          })) in
      h.booked
