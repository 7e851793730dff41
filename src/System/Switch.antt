-- ===== src/System/Switch.antt =====
-- The kill switch from the file HALT to the thread.
use rust_hft.Common.{
  ℕ, ◌≡◌, ◌≢◌, refl, sym, ap, ◌∙◌, Bool, true, false, Option, none, some, List, [], ◌∷◌, String,
  length, ltb, if◌then◌else◌,
}
use rust_hft.Double.{Double}
use rust_hft.Types.{MarketEvent, ValidatedOrder}
use rust_hft.Execution.{execute_with_state}
use rust_hft.Execution.Mirror.{execute_with_state-halt_flag}
use rust_hft.Dashboard.{sample_second}
use rust_hft.Ingestion.{Codec}
use rust_hft.Pipeline.{Reading}
use rust_hft.Pipeline.Rounds.{handle_event-Round}
use rust_hft.System.Defs.{
  System, Action, handle, look, store, put_file, halt_request, resume_request, sample, execute,
  on_handle, on_store, after_execute, next_order, on_execute, step, run_all,
}
use rust_hft.System.Steps.{Holds, map-Holds, IsAlong, run_all-Holds}
use rust_hft.System.Market.{
  View, of_market, of_handle, of_look, of_store, of_put_file, of_halt, of_resume, of_sample,
  of_execute, view, IsApart, market-Holds,
}

true_seen : some true ≢ some false
true_seen e = cc

none_seen : ◌≢◌ {A = Option Bool} none (some false)
none_seen e = cc

module _ {F : Type 0} ⦃d : Double F⦄ where
  -- The switch is on, the file is there, and its poller is not about to store that it was missing.
  pub record IsHalted (s : System F) : Type 0 where
    pub wired : s.thread.risk.halt_flag ≡ true
    pub flag_on : s.thread.dash_state.halt_flag ≡ true
    pub file_there : s.halt_file ≡ true
    pub seen_there : s.seen ≢ some false

  -- Nobody asks to resume or removes the file.
  abbrev pub StaysHalted : System F → Action → Type 0
  StaysHalted s (resume_request worked) = ⊥
  StaysHalted s (put_file exists) = exists ≡ true
  StaysHalted s a = Unit

  abbrev HaltedAt : List (ValidatedOrder F) → System F → Type 0
  HaltedAt orders s = IsHalted s × (s.thread.orders ≡ orders)

  apart-HaltedAt :
      (orders : List (ValidatedOrder F)) (s s' : System F)
      → HaltedAt orders s
      → IsApart s s'
      → HaltedAt orders s'
  apart-HaltedAt orders s s' (h, o) e = (
    record {
      wired = ap (λ x. x.thread.risk.halt_flag) e ∙ h.wired;
      flag_on = ap (λ x. x.thread.dash_state.halt_flag) e ∙ h.flag_on;
      file_there = ap (λ x. x.halt_file) e ∙ h.file_there;
      seen_there = λ k. h.seen_there (sym (ap (λ x. x.seen) e) ∙ k);
    },
    ap (λ x. x.thread.orders) e ∙ o,
  )

  handle-HaltedAt :
      (orders : List (ValidatedOrder F)) (s : System F) (queue : List MarketEvent) (at : Reading)
      → HaltedAt orders s
      → Holds (HaltedAt orders) (on_handle queue s at)
  handle-HaltedAt orders s [] at h = tt
  handle-HaltedAt orders s (event ∷ queue) at (h, o) =
      let r = handle_event-Round s.thread event at in
      rw r.returned (
        record {
          wired = r.kept.wiring_kept ∙ h.wired;
          flag_on = r.kept.halt_kept ∙ h.flag_on;
          file_there = h.file_there;
          seen_there = h.seen_there;
        },
        r.kept.held h.wired h.flag_on ∙ o,
      )

  store-HaltedAt :
      (orders : List (ValidatedOrder F)) (s : System F) (seen : Option Bool)
      → seen ≢ some false
      → HaltedAt orders s
      → Holds (HaltedAt orders) (on_store seen s)
  store-HaltedAt orders s none n h = tt
  store-HaltedAt orders s (some true) n (h, o) = (
    record { wired = h.wired; flag_on = refl; file_there = h.file_there; seen_there = none_seen },
    o,
  )
  store-HaltedAt orders s (some false) n h = absurd (n refl)

  execute-HaltedAt :
      (orders : List (ValidatedOrder F)) (s : System F) (now : String)
      (o : Option (ValidatedOrder F))
      → HaltedAt orders s
      → Holds (HaltedAt orders) (on_execute s now o)
  execute-HaltedAt orders s now none h = tt
  execute-HaltedAt orders s now (some order) (h, o) =
      map-Holds (HaltedAt orders) (after_execute s)
        (execute_with_state s.executor s.thread.dash_state now order)
        (λ (x, dash) e. (
          record {
            wired = h.wired;
            flag_on =
                execute_with_state-halt_flag s.executor s.thread.dash_state now order (x, dash) e
                ∙ h.flag_on;
            file_there = h.file_there;
            seen_there = h.seen_there;
          },
          o,
        ))

  step_cases :
      (orders : List (ValidatedOrder F)) (codec : Codec) (timeout_secs : ℕ) (s : System F)
      (a : Action)
      → View a
      → StaysHalted s a
      → HaltedAt orders s
      → Holds (HaltedAt orders) (step codec timeout_secs s a)
  unfolding step sample_second
  step_cases orders codec t s a (of_market m) b h =
      market-Holds (HaltedAt orders) codec t s a m (λ s'. apart-HaltedAt orders s s' h)
  step_cases orders codec t s (handle at) of_handle b h = handle-HaltedAt orders s s.queue at h
  step_cases orders codec t s look of_look b (h, o) = (
    record {
      wired = h.wired;
      flag_on = h.flag_on;
      file_there = h.file_there;
      seen_there = rw h.file_there true_seen;
    },
    o,
  )
  step_cases orders codec t s store of_store b h = store-HaltedAt orders s s.seen h.0.seen_there h
  step_cases orders codec t s (put_file exists) of_put_file b (h, o) = (
    record { wired = h.wired; flag_on = h.flag_on; file_there = b; seen_there = h.seen_there },
    o,
  )
  step_cases orders codec t s (halt_request worked) of_halt b (h, o) = (
    record {
      wired = h.wired;
      flag_on = refl;
      file_there = or_there worked h.file_there;
      seen_there = h.seen_there;
    },
    o,
  )
    where
      or_there : (b : Bool) → s.halt_file ≡ true → (if b then true else s.halt_file) ≡ true
      or_there true e = refl
      or_there false e = e
  step_cases orders codec t s (resume_request worked) of_resume b h = absurd b
  step_cases orders codec t s sample of_sample b (h, o) = (
    record {
      wired = h.wired;
      flag_on = h.flag_on;
      file_there = h.file_there;
      seen_there = h.seen_there;
    },
    o,
  )
  step_cases orders codec t s (execute now) of_execute b h =
      by_due (ltb s.executed (length s.thread.orders)) (next_order s)
    where
      by_due :
          (b : Bool) (o : Option (ValidatedOrder F))
          → Holds (HaltedAt orders) (if b then on_execute s now o else none)
      by_due true o = execute-HaltedAt orders s now o h
      by_due false o = tt

  step-HaltedAt :
      (orders : List (ValidatedOrder F)) (codec : Codec) (timeout_secs : ℕ) (s : System F)
      (a : Action)
      → StaysHalted s a
      → HaltedAt orders s
      → Holds (HaltedAt orders) (step codec timeout_secs s a)
  step-HaltedAt orders codec t s a = step_cases orders codec t s a (view a)

  -- Once the kill switch is on with the file HALT there and no poller about to store that it was
  -- missing, then whatever the tasks do, as long as nobody asks to resume or removes the file the
  -- switch stays on and the thread sends no order.
  pub run_all-IsHalted :
      (codec : Codec) (timeout_secs : ℕ) (s : System F) (actions : List Action) (s' : System F)
      → IsHalted s
      → IsAlong StaysHalted codec timeout_secs s actions
      → run_all codec timeout_secs s actions ≡ some s'
      → IsHalted s' × (s'.thread.orders ≡ s.thread.orders)
  run_all-IsHalted codec t s actions s' h w e = rw e at (
      run_all-Holds StaysHalted (HaltedAt s.thread.orders) codec t
        (step-HaltedAt s.thread.orders codec t) actions s w (h, refl))
