-- ===== src/Backtest/Clock.antt =====
-- The backtest's rate limit and the machine's clock.
use mathlib.Core.Option
use mathlib.Core.Path.{subst}
use rust_hft.Common.{
  ℕ, ◌+◌, ◌^◌, ◌≤◌, ◌<◌, ◌≡◌, refl, sym, some, List, [], ◌∷◌, ◌++◌, inl, inr, Result, ok, err,
  arith, All, length, length-append,
}
use rust_hft.Double.{Double}
use rust_hft.Types.{Signal, buy, sell, hold, ValidatedOrder}
use rust_hft.Risk.{RiskChecker, RiskError, one_second}
use rust_hft.Risk.RateLimit.{Run, IsLimited, recent_count, accepted, run-IsLimited}
use rust_hft.Backtest.Defs.{Backtester, Round, Trade, trades_of, step, walk}
use rust_hft.Backtest.Rounds.{Stepped, made_by, step-Stepped}

-- The time is in the second that begins at `start`.
abbrev pub IsIn : ℕ → ℕ → Type 0
IsIn start t = (start ≤ t) × (t < start + one_second)

recent_count_all :
    (start now : ℕ) (ts : List ℕ)
    → IsIn start now
    → All (IsIn start) ts
    → recent_count now ts ≡ length ts
recent_count_all start now [] h k = refl
recent_count_all start now (t ∷ ts) h k =
    ground (arith, recent_count_all start now ts h k.1, h, k.0)

-- Accepted orders that all fall in one second are within the rate.
length-IsLimited :
    (start max : ℕ) (ts : List ℕ) → All (IsIn start) ts → IsLimited max ts → length ts ≤ max
length-IsLimited start max [] h l = omega arith
length-IsLimited start max (t ∷ ts) h l = omega (arith, recent_count_all start t ts h.0 h.1, l.0)

module _ {F : Type 0} ⦃d : Double F⦄ where
  -- The rounds read the machine's clock in order, from `last` on and within the second from `start`.
  abbrev pub Within : ℕ → ℕ → List (Round F) → Type 0
  Within start last [] = Unit
  Within start last (r ∷ rs) =
      (last ≤ r.env.now) × (r.env.now < start + one_second) × Within start r.env.now rs

  trades_of_few : (signal : Signal F) (ms : ℕ) → length (trades_of signal ms) ≤ 1
  trades_of_few (buy price qty) ms = omega arith
  trades_of_few (sell price qty) ms = omega arith
  trades_of_few hold ms = omega arith

  made_by_few :
      (a : Result (ValidatedOrder F) (RiskError F)) (ms now : ℕ) (ts : List ℕ)
      → length (made_by a ms) + length ts ≤ length (accepted a now ts)
  made_by_few (ok o) ms now ts = omega (arith, trades_of_few o.signal ms)
  made_by_few (err e) ms now ts = omega arith

  accepted-IsIn :
      (start : ℕ) (a : Result (ValidatedOrder F) (RiskError F)) (now : ℕ) (ts : List ℕ)
      → IsIn start now
      → All (IsIn start) ts
      → All (IsIn start) (accepted a now ts)
  accepted-IsIn start (ok o) now ts h k = (h, k)
  accepted-IsIn start (err e) now ts h k = k

  -- A reached state of the checker, with the orders that it accepted.
  record Reached (start : ℕ) (s₀ s : RiskChecker F) (least : ℕ) (last : ℕ) : Type 0 where
    ts : List ℕ
    t : ℕ
    run : Run s₀ s ts t
    in_order : t ≤ last
    inside : All (IsIn start) ts
    enough : least ≤ length ts

  step-Reached :
      (start last n : ℕ) (s₀ : RiskChecker F) (b : Backtester F) (r : Round F)
      (x : Stepped b.risk r (step b r))
      → start ≤ last
      → last ≤ r.env.now
      → r.env.now < start + one_second
      → Reached start s₀ b.risk n last
      → Reached start s₀ x.next.risk (length x.made + n) r.env.now
  step-Reached start last n s₀ b r x low late high k = elim x.how [
    | inl (e, f) ↦ record {
      ts = k.ts;
      t = k.t;
      run = subst (λ s. Run s₀ s k.ts k.t) (sym e) k.run;
      in_order = omega (arith, k.in_order);
      inside = k.inside;
      enough = rw f (omega (arith, k.enough));
    }
    | inr c ↦ record {
      ts = accepted c.answer r.env.now k.ts;
      t = r.env.now;
      run = Run.call r.env c.signal c.mid c.answer k.run (omega (arith, k.in_order)) c.asked;
      in_order = omega arith;
      inside = accepted-IsIn start c.answer r.env.now k.ts (omega arith, high) k.inside;
      enough =
          rw c.trades
            (omega (arith, made_by_few c.answer r.event.event_time r.env.now k.ts, k.enough));
    }
  ]

  walk-Reached :
      (start : ℕ) (s₀ : RiskChecker F) (rs : List (Round F)) (last n : ℕ) (b : Backtester F)
      → start ≤ last
      → Within start last rs
      → Reached start s₀ b.risk n last
      → (b' : Backtester F) × (trades : List (Trade F)) × (last' : ℕ) × (walk b rs
          ≡ some (b', trades))
        × Reached start s₀ b'.risk (length trades + n) last'
  unfolding walk Option.bind
  walk-Reached start s₀ [] last n b low w k =
      (b, [], last, refl, subst (λ m. Reached start s₀ b.risk m last) (omega arith) k)
  walk-Reached start s₀ (r ∷ rs) last n b low (late, high, w) k =
      let x = step-Stepped b r in
      let k' = step-Reached start last n s₀ b r x low late high k in
      let (b', ts, last', e, q) =
        walk-Reached start s₀ rs r.env.now (length x.made + n) x.next (omega arith) w k' in
      (
        b',
        x.made ++ ts,
        last',
        rw (x.returned, e) refl,
        record {
          ts = q.ts;
          t = q.t;
          run = q.run;
          in_order = q.in_order;
          inside = q.inside;
          enough = omega (arith, q.enough, length-append x.made ts);
        },
      )

  -- A backtest with a fresh risk checker, whose `max_orders_per_sec` is a `u32` and whose rounds all
  -- run within one second of the machine's clock, makes at most `max_orders_per_sec` trades, however
  -- far apart the recorded events are.
  pub walk_limited :
      (start : ℕ) (rs : List (Round F)) (b : Backtester F)
      → b.risk.order_timestamps ≡ []
      → b.risk.max_orders_per_sec < 2 ^ 32
      → Within start start rs
      → (b' : Backtester F) × (trades : List (Trade F)) × (walk b rs ≡ some (b', trades))
        × (length trades ≤ b.risk.max_orders_per_sec)
  walk_limited start rs b fresh small w =
      let (b', trades, last, e, q) =
        walk-Reached start b.risk rs start 0 b (omega arith) w (record {
          ts = [];
          t = 0;
          run = Run.start;
          in_order = omega arith;
          inside = tt;
          enough = omega arith;
        }) in
      let few =
        length-IsLimited start b.risk.max_orders_per_sec q.ts q.inside
          (run-IsLimited b.risk b'.risk q.ts q.t fresh small q.run) in
      (b', trades, e, omega (arith, few, q.enough))
