-- ===== src/Backtest/Rounds.antt =====
-- One round of the backtest's loop over the events, and the trades that it makes.
use rust_hft.Common.{ℕ, ◌≡◌, refl, false, Option, some, List, [], ◌⊎◌, inl, inr, Result, ok, err}
use rust_hft.Double.{Double}
use rust_hft.Types.{Signal, buy, sell, hold, ValidatedOrder}
use rust_hft.Orderbook
use rust_hft.Orderbook.Sync.{handle_update-answer}
use rust_hft.Strategy.Trait.{on_orderbook}
use rust_hft.Risk.{RiskChecker, RiskError, check}
use rust_hft.Pipeline.{mid_of}
use rust_hft.Pipeline.Orders.{check-ne-none}
use rust_hft.Backtest.Defs.{Backtester, Round, Trade, trades_of, answered, checked, step}

module _ {F : Type 0} ⦃d : Double F⦄ where
  -- The trades of the checks' answer.
  abbrev pub made_by : Result (ValidatedOrder F) (RiskError F) → ℕ → List (Trade F)
  made_by (ok order) ms = trades_of order.signal ms
  made_by (err e) ms = []

  -- A round that consulted the risk checker.
  pub record Consulted (risk : RiskChecker F) (r : Round F) (next : RiskChecker F)
      (made : List (Trade F)) : Type 0 where
    pub signal : Signal F
    pub mid : F
    pub answer : Result (ValidatedOrder F) (RiskError F)
    pub asked : check risk r.env signal mid ≡ some (next, answer)
    pub trades : made ≡ made_by answer r.event.event_time

  -- What a round did to the risk checker, and the trades that it made.
  pub record Stepped (risk : RiskChecker F) (r : Round F)
      (o : Option (Backtester F × List (Trade F))) : Type 0 where
    pub next : Backtester F
    pub made : List (Trade F)
    pub returned : o ≡ some (next, made)
    pub how : ((next.risk ≡ risk) × (made ≡ [])) ⊎ Consulted risk r next.risk made

  answered-Stepped :
      (b : Backtester F) (r : Round F) (signal : Signal F) (mid : F)
      (a : RiskChecker F × Result (ValidatedOrder F) (RiskError F))
      → check b.risk r.env signal mid ≡ some a
      → Stepped b.risk r (some (answered b r.event.event_time a))
  answered-Stepped b r signal mid (risk, ok order) e = record {
    next = record b { risk = risk };
    made = trades_of order.signal r.event.event_time;
    returned = refl;
    how = inr (record { signal = signal; mid = mid; answer = ok order; asked = e; trades = refl });
  }
  answered-Stepped b r signal mid (risk, err error) e = record {
    next = record b { risk = risk };
    made = [];
    returned = refl;
    how = inr (record { signal = signal; mid = mid; answer = err error; asked = e; trades = refl });
  }

  idle : (b : Backtester F) (r : Round F) → Stepped b.risk r (some (b, []))
  idle b r = record { next = b; made = []; returned = refl; how = inl (refl, refl) }

  checked-Stepped :
      (b : Backtester F) (r : Round F) (signal : Signal F) (mid : F)
      → Stepped b.risk r (checked b r.env r.event.event_time signal mid)
  checked-Stepped b r hold mid = idle b r
  checked-Stepped b r (buy price qty) mid =
      let (a, e) = check-ne-none b.risk r.env (buy price qty) mid (λ h. cc) in
      rw e (answered-Stepped b r (buy price qty) mid a e)
  checked-Stepped b r (sell price qty) mid =
      let (a, e) = check-ne-none b.risk r.env (sell price qty) mid (λ h. cc) in
      rw e (answered-Stepped b r (sell price qty) mid a e)

  pub step-Stepped : (b : Backtester F) (r : Round F) → Stepped b.risk r (step b r)
  unfolding step
  step-Stepped b r =
      let u = Orderbook.handle_update b.orderbook r.event false in
      let b' = record b { orderbook = u.book } in
      elim (handle_update-answer b.orderbook r.event false) [
        | inl (e, l) ↦
            let snap = Orderbook.snapshot u.book r.unix_ms in
            let s = on_orderbook b.strategy snap in
            rw e (checked-Stepped (record b' { strategy = s.0 }) r s.1 (mid_of snap))
        | inr e ↦ rw e (idle b' r)
      ]
