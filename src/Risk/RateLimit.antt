-- ===== src/Risk/RateLimit.antt =====
-- The rate limit over a whole run of the checker.
use mathlib.Core.Path.{subst}
use rust_hft.Common.{
  ℕ, ◌+◌, ◌^◌, ◌≤◌, ◌<◌, ◌≡◌, refl, sym, ap, ◌∙◌, some, List, [], ◌∷◌, ◌++◌, inl, inr, Result, ok,
  err, arith, length, All, All-imp, String,
}
use rust_hft.Double.{Double}
use rust_hft.Types.{Signal, ValidatedOrder}
use rust_hft.Risk.Defs.{RiskChecker, Env, RiskError, recent, forget, make_room, note_order, check}
use rust_hft.Risk.Gates.{Explains, check-Explains}

-- How many of the times lie less than a second before `now`.
abbrev pub recent_count : ℕ → List ℕ → ℕ
recent_count now ts = length (recent now ts)

-- Of orders accepted at these times, the newest first, each stood with at most `max` in its second,
-- itself included.
abbrev pub IsLimited : ℕ → List ℕ → Type 0
IsLimited max [] = Unit
IsLimited max (t ∷ ts) = (recent_count t ts + 1 ≤ max) × IsLimited max ts

recent_count-append :
    (now : ℕ) (ts us : List ℕ)
    → recent_count now (ts ++ us) ≡ recent_count now ts + recent_count now us
recent_count-append now [] us = omega arith
recent_count-append now (t ∷ ts) us = ground (arith, recent_count-append now ts us)

-- What was dropped at one time is not recent at a later one.
recent_count-recent :
    (now later : ℕ) (ts : List ℕ)
    → now ≤ later
    → recent_count later (recent now ts) ≡ recent_count later ts
recent_count-recent now later [] h = refl
recent_count-recent now later (t ∷ ts) h = ground (arith, recent_count-recent now later ts)

recent_count_anti :
    (now later : ℕ) (ts : List ℕ) → now ≤ later → recent_count later ts ≤ recent_count now ts
recent_count_anti now later [] h = omega arith
recent_count_anti now later (t ∷ ts) h = ground (arith, recent_count_anti now later ts)

recent_count-IsLimited :
    (max now : ℕ) (ts : List ℕ)
    → IsLimited max ts
    → All (λ t. t ≤ now) ts
    → recent_count now ts ≤ max
recent_count-IsLimited max now [] l p = omega arith
recent_count-IsLimited max now (t ∷ ts) l p =
    let fewer : recent_count now ts ≤ recent_count t ts = recent_count_anti t now ts p.0 in
    ground (arith, fewer, l.0)

later_past : (t now : ℕ) (ts : List ℕ) → t ≤ now → All (λ x. x ≤ t) ts → All (λ x. x ≤ now) ts
later_past t now ts h = All-imp (λ x. x ≤ t) (λ x. x ≤ now) (λ x k. omega arith) ts

module _ {F : Type 0} ⦃d : Double F⦄ where
  abbrev pub accepted : Result (ValidatedOrder F) (RiskError F) → ℕ → List ℕ → List ℕ
  accepted (ok o) now ts = now ∷ ts
  accepted (err e) now ts = ts

  -- Calls of `check` from the state `s₀` on, at times that do not fall: the state that they reach, the
  -- times of the orders that they accepted, the newest first, and the time of the last call.
  pub data Run (s₀ : RiskChecker F) : RiskChecker F → List ℕ → ℕ → Type 0 where
    start : Run s₀ s₀ [] 0
    call :
        {s s' : RiskChecker F} {ts : List ℕ} {t : ℕ} (env : Env F) (signal : Signal F) (mid : F)
        (r : Result (ValidatedOrder F) (RiskError F))
        → Run s₀ s ts t
        → t ≤ env.now
        → check s env signal mid ≡ some (s', r)
        → Run s₀ s' (accepted r env.now ts) env.now

  -- What the checker knows of the accepted orders.
  record Tracks (max : ℕ) (s : RiskChecker F) (ts : List ℕ) (t : ℕ) : Type 0 where
    rate : s.max_orders_per_sec ≡ max
    counts : (now : ℕ) → t ≤ now → recent_count now s.order_timestamps ≡ recent_count now ts
    limited : IsLimited max ts
    past : All (λ x. x ≤ t) ts

  forget_keeps :
      (q : List String) (s : RiskChecker F)
      → ((forget q s).order_timestamps ≡ s.order_timestamps)
        × ((forget q s).max_orders_per_sec ≡ s.max_orders_per_sec)
  forget_keeps [] s = (refl, refl)
  forget_keeps (o ∷ q) s = (refl, refl)

  note_order_keeps :
      (s : RiskChecker F) (id : String) (now : ℕ)
      → ((note_order s id now).order_timestamps ≡ s.order_timestamps ++ (now ∷ []))
        × ((note_order s id now).max_orders_per_sec ≡ s.max_orders_per_sec)
  unfolding note_order make_room
  note_order_keeps s id now = let (a, b) = forget_keeps s.seen_order_queue s in ground (arith, a, b)

  step-Tracks :
      (max t : ℕ) (ts : List ℕ) (s : RiskChecker F) (env : Env F) (signal : Signal F)
      (s' : RiskChecker F) (r : Result (ValidatedOrder F) (RiskError F))
      → max < 2 ^ 32
      → t ≤ env.now
      → Explains s env signal (some (s', r))
      → Tracks max s ts t
      → Tracks max s' (accepted r env.now ts) env.now
  step-Tracks max t ts s env signal s' (err e) small late (inl h) k =
      subst (λ x. Tracks max x ts env.now) (sym h)
        (record {
          rate = k.rate;
          counts = λ now l. k.counts now (omega arith);
          limited = k.limited;
          past = later_past t env.now ts late k.past;
        })
  step-Tracks max t ts s env signal s' (err e) small late (inr h) k =
      subst (λ x. Tracks max x ts env.now) (sym h)
        (record {
          rate = k.rate;
          counts = λ now l.
              recent_count-recent env.now now s.order_timestamps l ∙ k.counts now (omega arith);
          limited = k.limited;
          past = later_past t env.now ts late k.past;
        })
  step-Tracks max t ts s env signal s' (ok o) small late (_, _, fits, h) k =
      let kept = record s { order_timestamps = recent env.now s.order_timestamps } in
      let (stamps, rate) = note_order_keeps kept env.uuid env.now in
      let same = k.counts env.now late in
      let few =
        recent_count-IsLimited max env.now ts k.limited (later_past t env.now ts late k.past) in
      subst (λ x. Tracks max x (env.now ∷ ts) env.now) (sym h)
        (record {
          rate = rate ∙ k.rate;
          counts = λ now l.
              let pruned = recent_count-recent env.now now s.order_timestamps l in
              let both =
                recent_count-append now (recent env.now s.order_timestamps) (env.now ∷ []) in
              let old = k.counts now (omega arith) in
              ap (recent_count now) stamps ∙ both ∙ (ground (arith, pruned, old));
          limited = (omega (arith, fits, same, few, k.rate), k.limited);
          past = (omega arith, later_past t env.now ts late k.past);
        })

  run-Tracks :
      (s₀ s : RiskChecker F) (ts : List ℕ) (t : ℕ)
      → s₀.order_timestamps ≡ []
      → s₀.max_orders_per_sec < 2 ^ 32
      → Run s₀ s ts t
      → Tracks s₀.max_orders_per_sec s ts t
  run-Tracks s₀ s ts t fresh small Run.start = record {
    rate = refl;
    counts = λ now h. ap (recent_count now) fresh;
    limited = tt;
    past = tt;
  }
  run-Tracks s₀ s' ts' t' fresh small
        (Run.call {s = s} {ts = ts} {t = t} env signal mid r run late e) =
      step-Tracks s₀.max_orders_per_sec t ts s env signal s' r small late
        (rw e at (check-Explains s env signal mid)) (run-Tracks s₀ s ts t fresh small run)

  -- Over any run of calls at times that do not fall, from a checker that has noted no order yet and
  -- whose `max_orders_per_sec` is a `u32`, no second that ends with an accepted order holds more
  -- accepted orders than `max_orders_per_sec`.
  pub run-IsLimited :
      (s₀ s : RiskChecker F) (ts : List ℕ) (t : ℕ)
      → s₀.order_timestamps ≡ []
      → s₀.max_orders_per_sec < 2 ^ 32
      → Run s₀ s ts t
      → IsLimited s₀.max_orders_per_sec ts
  run-IsLimited s₀ s ts t fresh small run = (run-Tracks s₀ s ts t fresh small run).limited
