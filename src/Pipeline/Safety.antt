-- ===== src/Pipeline/Safety.antt =====
-- Rounds and runs of the thread: the orders sent, and the state between events.
use mathlib.Core.Option
use mathlib.Core.Bool.{false≢true}
use rust_hft.Common.{Bool, ℕ, ◌≡◌, refl, arith, Option, some, List, [], ◌∷◌, err}
use rust_hft.Double.{Double}
use rust_hft.Types.{
  MarketEvent, depth_update, depth_snapshot, trade, reconnect, OrderbookSnapshot, Signal, buy, sell,
  hold,
}
use rust_hft.Double.Laws.{IsFloat}
use rust_hft.Config.{Config}
use rust_hft.Orderbook
use rust_hft.Orderbook.Validity.{
  IsValid, []-IsSide, reset-IsValid, handle_update-IsValid, handle_snapshot-IsValid,
}
use rust_hft.Risk
use rust_hft.Risk.SeenIds.{HasWindow}
use rust_hft.Strategy.Trait.{on_orderbook}
use rust_hft.Strategy.Trades.{open_qty, on_orderbook-Moves}
use rust_hft.Risk.{RiskChecker, RiskError, Env, check}
use rust_hft.Dashboard.{first_price}
use rust_hft.Execution.Positions.{open_after, Moves-open_after}
use rust_hft.Pipeline.Defs.{
  Pipeline, start, submit, Reading, env_of, with_price, mid_of, show_snapshot, trade_on,
  handle_event,
}
use rust_hft.Pipeline.Orders.{Sent, IsShown}
use rust_hft.Pipeline.Rounds.{book_after, handle_event-Round}

module _ {F : Type 0} ⦃d : Double F⦄ where
  -- Every round returns: no event makes the thread panic. A round sends no order and leaves the strategy
  -- alone; or its event is a depth update after which the book is live, the strategy has seen that
  -- book's snapshot, and at most one order was sent, which carries the strategy's signal.
  pub handle_event-Sent :
      (p : Pipeline F) (event : MarketEvent) (at : Reading)
      → (p' : Pipeline F) × (handle_event p event at ≡ some p') × Sent p event at p'
  handle_event-Sent p event at =
      let r = handle_event-Round p event at in (r.next, r.returned, r.is_sent)

  -- The rounds of a run, with what each reads.
  unfoldable pub run : Pipeline F → List (MarketEvent × Reading) → Option (Pipeline F)
  run p [] = some p
  run p ((event, at) ∷ events) = Option.bind (handle_event p event at) (λ p'. run p' events)

  -- What holds of the thread's state between events: the book is valid, the identifiers' window is
  -- sound, and the dashboard shows a live book only if the book is live.
  pub record IsSafe (p : Pipeline F) : Type 0 where
    pub valid : IsValid p.book
    pub window : HasWindow p.risk
    pub shown : IsShown p

  module _ (laws : IsFloat F) where
    pub book_after-IsValid :
        (p : Pipeline F) (event : MarketEvent) → IsValid p.book → IsValid (book_after p event)
    book_after-IsValid p (depth_update update) h =
        handle_update-IsValid p.book update p.resync_needed h
    book_after-IsValid p (depth_snapshot snap) h =
        handle_snapshot-IsValid laws.pos_ne_zero p.book snap
    book_after-IsValid p (trade t) h = h
    book_after-IsValid p reconnect h = reset-IsValid p.book

    run-IsSafe :
        (events : List (MarketEvent × Reading)) (p : Pipeline F)
        → IsSafe p
        → (p' : Pipeline F) × (run p events ≡ some p') × IsSafe p'
    unfolding run Option.bind
    run-IsSafe [] p h = (p, refl, h)
    run-IsSafe ((event, at) ∷ events) p h =
        let r = handle_event-Round p event at in
        let safe : IsSafe r.next = record {
          valid = rw r.book_is (book_after-IsValid p event h.valid);
          window = r.window_kept h.window;
          shown = r.is_shown h.shown;
        } in
        let (p', e, h') = run-IsSafe events r.next safe in (p', rw r.returned e, h')

    -- From the start on, no event makes the thread panic, and after any run of events the book's sides
    -- are sorted and quote no zero, the window of identifiers is sound, and the dashboard shows a live
    -- book only if the book is live. (Of the doubles, `IsFloat` is assumed.)
    pub run-start :
        (cfg : Config F) (halt : Bool) (now : ℕ) (events : List (MarketEvent × Reading))
        → (p' : Pipeline F) × (run (start cfg halt now) events ≡ some p') × IsSafe p'
    unfolding start Orderbook.new Risk.new
    run-start cfg halt now events = run-IsSafe events (start cfg halt now) (record {
      valid = record { bids_side = []-IsSide; asks_side = []-IsSide };
      window = record { same = λ x. refl; distinct = tt; bounded = omega arith };
      shown = λ h. absurd (false≢true h);
    })

  submit_rejected :
      (p : Pipeline F) (env : Env F) (signal : Signal F) (mid : F) (risk : RiskChecker F)
      (error : RiskError F)
      → check p.risk env signal mid ≡ some (risk, err error)
      → (r : RiskChecker F) × (submit p env signal mid ≡ some (record p { risk = r }))
  submit_rejected p env (buy price qty) mid risk error e = (risk, rw e refl)
  submit_rejected p env (sell price qty) mid risk error e = (risk, rw e refl)
  submit_rejected p env hold mid risk error e = (p.risk, refl)

  -- If the risk checks reject the strategy's signal, the round sends no order, and yet the strategy
  -- takes it for filled: after a buy it believes to hold the quantity, after a sell to be flat.
  pub trade_on_rejected :
      (p : Pipeline F) (snap : OrderbookSnapshot F) (at : Reading) (risk : RiskChecker F)
      (error : RiskError F)
      → let signal = (on_orderbook p.strat snap).1 in
        check p.risk
            (env_of (with_price (first_price snap.bids) p.dash_state) at)
            signal
            (mid_of snap)
          ≡ some (risk, err error)
        → (p' : Pipeline F) × (trade_on p snap at ≡ some p')
          × (p'.orders ≡ p.orders)
          × (open_qty p'.strat ≡ open_after signal (open_qty p.strat))
  unfolding trade_on
  trade_on_rejected p snap at risk error e =
      let dash = with_price (first_price snap.bids) p.dash_state in
      let r = on_orderbook p.strat snap in
      let p0 : Pipeline F = record p { dash_state = dash; strat = r.0 } in
      let (risk', f) = submit_rejected p0 (env_of dash at) r.1 (mid_of snap) risk error e in
      (
        show_snapshot snap (record p0 { risk = risk' }),
        rw f refl,
        refl,
        Moves-open_after (open_qty p.strat) (open_qty r.0) r.1 (on_orderbook-Moves p.strat snap),
      )
