-- ===== src/Backtest/Trades.antt =====
-- The trades of a backtest, the risk limits, and the counts of the result.
use mathlib.Core.Option
use mathlib.Core.Path.{subst}
use rust_hft.Common.{
  ℕ, ◌+◌, ◌≡◌, refl, sym, ap, ◌∙◌, Bool, false, not, Option, none, some, List, [], ◌∷◌, ◌++◌, inl,
  inr, Result, ok, err, arith, All, All-append, String, retain, length,
}
use rust_hft.Double.{Double, gt}
use rust_hft.Double.Laws.{IsFinite, IsFloat}
use rust_hft.Types.{DepthSnapshot, Signal, buy, sell, hold, ValidatedOrder}
use rust_hft.Risk.{RiskChecker, RiskError, Env, check, note_order, make_room, forget, recent}
use rust_hft.Risk.Gates.{Explains, check-Explains, check_buy_iff, check_sell_iff}
use rust_hft.Pnl
use rust_hft.Pnl.{FifoPnl}
use rust_hft.Pnl.Totality.{HasFiniteLots, on_sell_finite}
use rust_hft.Backtest.Defs.{
  Backtester, BacktestResult, Round, Trade, TradeSide, trades_of, step, bought, sold,
  with_first_snapshot, walk, run, book_trade, book_trades, is_buy, result_of,
}
use rust_hft.Backtest.Rounds.{Stepped, made_by, step-Stepped}

module _ {F : Type 0} ⦃d : Double F⦄ where
  -- The trade is not above the maximum quantity.
  abbrev pub Fits : F → Trade F → Type 0
  Fits max t = gt t.qty max ≡ false

  forget_max : (q : List String) (s : RiskChecker F) → (forget q s).max_order_qty ≡ s.max_order_qty
  forget_max [] s = refl
  forget_max (o ∷ q) s = refl

  note_order_max :
      (s : RiskChecker F) (id : String) (now : ℕ)
      → (note_order s id now).max_order_qty ≡ s.max_order_qty
  unfolding note_order make_room
  note_order_max s id now = ground (arith, forget_max s.seen_order_queue s)

  -- `check` leaves the maximum alone.
  Explains-max :
      (s s' : RiskChecker F) (env : Env F) (signal : Signal F)
      (a : Result (ValidatedOrder F) (RiskError F))
      → Explains s env signal (some (s', a))
      → s'.max_order_qty ≡ s.max_order_qty
  Explains-max s s' env signal (ok o) (_, _, _, e) =
      ap (λ x. x.max_order_qty) e
      ∙ note_order_max (record s { order_timestamps = recent env.now s.order_timestamps }) env.uuid
          env.now
  Explains-max s s' env signal (err x) (inl e) = ap (λ x. x.max_order_qty) e
  Explains-max s s' env signal (err x) (inr e) = ap (λ x. x.max_order_qty) e

  accepted-Fits :
      (s s' : RiskChecker F) (env : Env F) (signal : Signal F) (mid : F) (o : ValidatedOrder F)
      (ms : ℕ)
      → check s env signal mid ≡ some (s', ok o)
      → All (Fits s.max_order_qty) (trades_of signal ms)
  accepted-Fits s s' env hold mid o ms e = tt
  accepted-Fits s s' env (buy price qty) mid o ms e =
      (((check_buy_iff s env price qty mid).0 (rw e refl)).0.qty_fits, tt)
  accepted-Fits s s' env (sell price qty) mid o ms e =
      (((check_sell_iff s env price qty mid).0 (rw e refl)).qty_fits, tt)

  made_by-Fits :
      (s s' : RiskChecker F) (env : Env F) (signal : Signal F) (mid : F)
      (a : Result (ValidatedOrder F) (RiskError F)) (ms : ℕ)
      → check s env signal mid ≡ some (s', a)
      → All (Fits s.max_order_qty) (made_by a ms)
  made_by-Fits s s' env signal mid (ok o) ms e =
      let (same, _, _, _) : Explains s env signal (some (s', ok o)) =
        rw e at (check-Explains s env signal mid) in
      subst (λ x. All (Fits s.max_order_qty) (trades_of x ms)) (sym (ap (λ x. x.signal) same))
        (accepted-Fits s s' env signal mid o ms e)
  made_by-Fits s s' env signal mid (err x) ms e = tt

  step-Fits :
      (b : Backtester F) (r : Round F) (t : Stepped b.risk r (step b r))
      → (t.next.risk.max_order_qty ≡ b.risk.max_order_qty) × All (Fits b.risk.max_order_qty) t.made
  step-Fits b r t = elim t.how [
    | inl (e, f) ↦ (ap (λ x. x.max_order_qty) e, rw f tt)
    | inr c ↦ (
      Explains-max b.risk t.next.risk r.env c.signal c.answer
          (rw c.asked at (check-Explains b.risk r.env c.signal c.mid)),
      rw c.trades (
          made_by-Fits b.risk t.next.risk r.env c.signal c.mid c.answer r.event.event_time c.asked),
    )
  ]

  -- The loop over the events always ends without a panic, and every trade that it makes is for a
  -- quantity that is not above the risk checker's maximum.
  pub walk-Fits :
      (rs : List (Round F)) (b : Backtester F)
      → (b' : Backtester F) × (trades : List (Trade F)) × (walk b rs ≡ some (b', trades))
        × All (Fits b.risk.max_order_qty) trades
  unfolding walk Option.bind
  walk-Fits [] b = (b, [], refl, tt)
  walk-Fits (r ∷ rs) b =
      let t = step-Stepped b r in
      let (same, fits) = step-Fits b r t in
      let (b', ts, e, all) = walk-Fits rs t.next in
      (
        b',
        t.made ++ ts,
        rw (t.returned, e) refl,
        All-append (Fits b.risk.max_order_qty) t.made ts fits (rw same at all),
      )

  snapshot_max :
      (b : Backtester F) (snapshot : Option DepthSnapshot)
      → (with_first_snapshot b snapshot).risk.max_order_qty ≡ b.risk.max_order_qty
  snapshot_max b none = refl
  snapshot_max b (some snap) = refl

  count_sides :
      (p : Trade F → Bool) (ts : List (Trade F))
      → length (retain p ts) + length (retain (λ t. not (p t)) ts) ≡ length ts
  count_sides p [] = refl
  count_sides p (t ∷ ts) = ground (arith, count_sides p ts)

  -- The ledger takes any trades, if the quantities bought are finite.
  module _ (laws : IsFloat F) where
    book_trade-returns :
        (pnl : FifoPnl F) (t : Trade F) (side : TradeSide)
        → IsFinite t.qty
        → HasFiniteLots pnl.buy_queue
        → (pnl' : FifoPnl F) × (book_trade pnl t side ≡ some pnl') × HasFiniteLots pnl'.buy_queue
    unfolding Pnl.on_buy
    book_trade-returns pnl t bought n h = (
      Pnl.on_buy pnl t.price t.qty,
      refl,
      All-append (λ l. IsFinite l.1) pnl.buy_queue ((t.price, t.qty) ∷ []) h (n, tt),
    )
    book_trade-returns pnl t sold n h =
        let ((pnl', matched), e, k) = on_sell_finite laws pnl t.price t.qty h in
        (pnl', rw e refl, k)

    book_trades-returns :
        (ts : List (Trade F)) (pnl : FifoPnl F)
        → All (λ t. IsFinite t.qty) ts
        → HasFiniteLots pnl.buy_queue
        → (pnl' : FifoPnl F) × (book_trades pnl ts ≡ some pnl')
    unfolding book_trades Option.bind
    book_trades-returns [] pnl ns h = (pnl, refl)
    book_trades-returns (t ∷ ts) pnl ns h =
        let (next, e, k) = book_trade-returns pnl t t.side ns.0 h in
        let (last, f) = book_trades-returns ts next ns.1 k in (last, rw (e, f) refl)

    -- A backtest whose trades are all for finite quantities returns, if the doubles obey `IsFloat`:
    -- every trade of its result keeps to the maximum quantity, and the count of trades is the length
    -- of their list and the sum of the buys and the sells.
    pub run_returns :
        (b : Backtester F) (rs : List (Round F)) (snapshot : Option DepthSnapshot)
        → ((b' : Backtester F) (ts : List (Trade F))
            → walk (with_first_snapshot b snapshot) rs ≡ some (b', ts)
            → All (λ t. IsFinite t.qty) ts)
        → (b' : Backtester F) × (res : BacktestResult F) × (run b rs snapshot ≡ some (b', res))
          × All (Fits b.risk.max_order_qty) res.trades
          × (res.total_trades ≡ length res.trades)
          × (res.buy_trades + res.sell_trades ≡ res.total_trades)
    unfolding run Option.bind Pnl.new
    run_returns b rs snapshot finite =
        let (b', ts, e, fits) = walk-Fits rs (with_first_snapshot b snapshot) in
        let (pnl, f) = book_trades-returns ts Pnl.new (finite b' ts e) tt in
        (
          b',
          result_of ts pnl,
          rw (e, f) refl,
          subst (λ m. All (Fits m) ts) (snapshot_max b snapshot) fits,
          refl,
          count_sides is_buy ts,
        )
