-- ===== src/Backtest/Live.antt =====
-- The backtest against the thread of src/main.rs: the same updates, clocks and identifiers.
use rust_hft.Common.{
  ℕ, ◌≡◌, refl, Bool, true, false, Option, none, some, List, [], ◌∷◌, ◌++◌, map, inl, inr, Result,
  ok, err, arith,
}
use rust_hft.Double.{Double}
use rust_hft.Types.{
  DepthUpdate, depth_update, OrderbookSnapshot, Signal, buy, sell, hold, ValidatedOrder,
}
use rust_hft.Orderbook
use rust_hft.Orderbook.{Orderbook, SyncState, buffering, live, update_in, handle_update}
use rust_hft.Orderbook.Sync.{handle_update-answer}
use rust_hft.Strategy.Trait.{on_orderbook}
use rust_hft.Risk.{RiskChecker, RiskError, Env}
use rust_hft.Pnl.Fills.{Fill}
use rust_hft.Pnl.Fills
use rust_hft.Dashboard.{SharedState, first_price, update_price_history, incr}
use rust_hft.Execution.Fills.{fill_of, fills}
use rust_hft.Pipeline.{
  Pipeline, Reading, env_of, with_answer, submit, with_price, mid_of, trade_on, flagged,
  handle_event,
}
use rust_hft.Pipeline
use rust_hft.Pipeline.Orders.{check-ne-none}
use rust_hft.Backtest.Defs.{
  Backtester, Round, Trade, TradeSide, bought, sold, trades_of, answered, checked, step,
}

module _ {F : Type 0} where
  -- The fill that a trade of the backtest stands for.
  abbrev pub fill_at : TradeSide → F → F → Fill F
  fill_at bought price qty = Fills.bought price qty
  fill_at sold price qty = Fills.sold price qty

  abbrev pub trade_fill : Trade F → Fill F
  trade_fill t = fill_at t.side t.price t.qty

module _ {F : Type 0} ⦃d : Double F⦄ where
  -- A backtester with the thread's book, strategy and risk checker.
  abbrev pub shadow : Pipeline F → Backtester F
  shadow p = record { orderbook = p.book; strategy = p.strat; risk = p.risk }

  -- A round of the backtest that reads what a round of the thread reads.
  abbrev pub round_of : SharedState F → DepthUpdate × Reading → Round F
  round_of s (update, at) = record { event = update; unix_ms = at.unix_ms; env = env_of s at }

  -- Both return and stay alike; the trades made are the fills of the orders sent.
  pub record Matches (p : Pipeline F) (o : Option (Pipeline F))
      (o' : Option (Backtester F × List (Trade F))) : Type 0 where
    pub next : Pipeline F
    pub made : List (Trade F)
    pub sent : List (ValidatedOrder F)
    pub returned : o ≡ some next
    pub stepped : o' ≡ some (shadow next, made)
    pub orders_are : next.orders ≡ sent ++ p.orders
    pub fills_are : map trade_fill made ≡ fills sent

  trades_of-fill :
      (signal : Signal F) (ms : ℕ) → map trade_fill (trades_of signal ms) ≡ fill_of signal
  trades_of-fill (buy price qty) ms = refl
  trades_of-fill (sell price qty) ms = refl
  trades_of-fill hold ms = refl

  pub idle-Matches : (p : Pipeline F) → Matches p (some p) (some (shadow p, []))
  idle-Matches p = record {
    next = p;
    made = [];
    sent = [];
    returned = refl;
    stepped = refl;
    orders_are = refl;
    fills_are = refl;
  }

  answered-Matches :
      (p : Pipeline F) (ms : ℕ) (a : RiskChecker F × Result (ValidatedOrder F) (RiskError F))
      → Matches p (some (with_answer p a)) (some (answered (shadow p) ms a))
  answered-Matches p ms (risk, ok order) = record {
    next = record p { risk = risk; orders = order ∷ p.orders };
    made = trades_of order.signal ms;
    sent = order ∷ [];
    returned = refl;
    stepped = refl;
    orders_are = refl;
    fills_are = trades_of-fill order.signal ms;
  }
  answered-Matches p ms (risk, err error) = record {
    next = record p { risk = risk };
    made = [];
    sent = [];
    returned = refl;
    stepped = refl;
    orders_are = refl;
    fills_are = refl;
  }

  submit-Matches :
      (p : Pipeline F) (env : Env F) (ms : ℕ) (signal : Signal F) (mid : F)
      → Matches p (submit p env signal mid) (checked (shadow p) env ms signal mid)
  submit-Matches p env ms hold mid = idle-Matches p
  submit-Matches p env ms (buy price qty) mid =
      let (a, e) = check-ne-none p.risk env (buy price qty) mid (λ h. cc) in
      rw e (answered-Matches p ms a)
  submit-Matches p env ms (sell price qty) mid =
      let (a, e) = check-ne-none p.risk env (sell price qty) mid (λ h. cc) in
      rw e (answered-Matches p ms a)

  env_of-with_price :
      (o : Option F) (s : SharedState F) (at : Reading) → env_of (with_price o s) at ≡ env_of s at
  unfolding update_price_history
  env_of-with_price none s at = refl
  env_of-with_price (some price) s at = refl

  trade_on-Matches :
      (p : Pipeline F) (snap : OrderbookSnapshot F) (at : Reading) (ms : ℕ)
      → let r = on_orderbook p.strat snap in
        Matches p (trade_on p snap at) (
          checked
            (record (shadow p) { strategy = r.0 })
            (env_of p.dash_state at)
            ms
            r.1
            (mid_of snap))
  unfolding trade_on
  trade_on-Matches p snap at ms =
      let dash = with_price (first_price snap.bids) p.dash_state in
      let r = on_orderbook p.strat snap in
      let p0 : Pipeline F = record p { dash_state = dash; strat = r.0 } in
      let m = submit-Matches p0 (env_of dash at) ms r.1 (mid_of snap) in
      let same = env_of-with_price (first_price snap.bids) p.dash_state at in
      record {
        next = Pipeline.show_snapshot snap m.next;
        made = m.made;
        sent = m.sent;
        returned = rw m.returned refl;
        stepped = rw (← same) m.stepped;
        orders_are = m.orders_are;
        fills_are = m.fills_are;
      }

  handle_update-flag :
      (b : Orderbook F) (u : DepthUpdate) (resync : Bool)
      → ((handle_update b u resync).book ≡ (handle_update b u false).book)
        × ((handle_update b u resync).result ≡ (handle_update b u false).result)
  unfolding handle_update update_in
  handle_update-flag b u resync = by_state b.state
    where
      by_state :
          (s : SyncState)
          → ((update_in s b u resync).book ≡ (update_in s b u false).book)
            × ((update_in s b u resync).result ≡ (update_in s b u false).result)
      by_state (buffering buf) = (refl, refl)
      by_state (live n) = (ground arith, ground arith)

  pub round-Matches :
      (p : Pipeline F) (s : SharedState F) (update : DepthUpdate) (at : Reading)
      → p.dash_state.halt_flag ≡ s.halt_flag
      → p.dash_state.cash_bits ≡ s.cash_bits
      → Matches p
          (handle_event p (depth_update update) at)
          (step (shadow p) (round_of s (update, at)))
  unfolding handle_event Pipeline.after_update step
  round-Matches p s update at h c =
      let r = handle_update p.book update p.resync_needed in
      let (same_book, same_result) = handle_update-flag p.book update p.resync_needed in
      elim (handle_update-answer p.book update p.resync_needed) [
        | inl (e, l) ↦
            let p0 : Pipeline F = record p {
              event_count = incr p.event_count;
              book = r.book;
              resync_needed = r.resync_needed;
              dash_state = flagged p.dash_state true;
            } in
            let m =
              trade_on-Matches p0 (Orderbook.snapshot r.book at.unix_ms) at update.event_time in
            record {
              next = m.next;
              made = m.made;
              sent = m.sent;
              returned = rw (e, l) m.returned;
              stepped = rw (← same_book, ← same_result, e, ← h, ← c) m.stepped;
              orders_are = m.orders_are;
              fills_are = m.fills_are;
            }
        | inr e ↦
            let p0 : Pipeline F = record p {
              event_count = incr p.event_count;
              book = r.book;
              resync_needed = r.resync_needed;
              dash_state = flagged p.dash_state false;
            } in
            let m = idle-Matches p0 in
            record {
              next = p0;
              made = [];
              sent = [];
              returned = rw e refl;
              stepped = rw (← same_book, ← same_result, e) refl;
              orders_are = refl;
              fills_are = refl;
            }
      ]
