-- ===== src/Pipeline/Defs.antt =====
-- The loop body of src/main.rs. The thread's variables and what it shares with other tasks are one
-- record; `orders` is what went into the order channel, the newest first. The warnings and the
-- statistics that are only logged are left out.
use mathlib.Core.Option
use rust_hft.Common.{
  ℕ, Bool, true, false, Option, none, some, List, [], ◌∷◌, String, Result, ok, err, if◌then◌else◌,
}
use rust_hft.Double.{◌⊗◌, Double, zero_f}
use rust_hft.Types.{
  MarketEvent, depth_update, depth_snapshot, trade, reconnect, OrderbookSnapshot, Signal, buy, sell,
  hold, ValidatedOrder,
}
use rust_hft.Config.{Config}
use rust_hft.Orderbook
use rust_hft.Orderbook.{Orderbook}
use rust_hft.Strategy.Trait.{Strategy, no_op, ping_pong, momentum, on_orderbook}
use rust_hft.Strategy.PingPong
use rust_hft.Strategy.Momentum
use rust_hft.Risk
use rust_hft.Risk.{RiskChecker, RiskError, Env}
use rust_hft.Dashboard
use rust_hft.Dashboard.{SharedState, incr, first_price, update_price_history}
use text.Mathlib.Text.{◌==◌ as str_eq}

pub record Pipeline (F : Type 0) : Type 0 where
  pub book : Orderbook F
  pub strat : Strategy F
  pub risk : RiskChecker F
  pub dash_state : SharedState F
  pub resync_needed : Bool
  pub orders : List (ValidatedOrder F)
  pub event_count : ℕ

-- What a round reads from outside: the two clocks, in milliseconds of Unix time and in nanoseconds of
-- an `Instant`, and the identifier that an order would get.
pub record Reading : Type 0 where
  pub unix_ms : ℕ
  pub instant : ℕ
  pub uuid : String

module _ {F : Type 0} ⦃d : Double F⦄ where
  -- The strategy that the configuration names.
  unfoldable pub strategy_for : String → F → Strategy F
  unfolding PingPong.default Momentum.default
  strategy_for name budget =
      if str_eq name "momentum"
      then momentum (Momentum.with_max_notional Momentum.default budget)
      else if str_eq name "pingpong"
      then ping_pong (PingPong.with_max_notional PingPong.default budget)
      else no_op

  -- `initial_capital_usdt * 0.9`
  abbrev pub strategy_budget : F → F
  strategy_budget initial_capital_usdt = initial_capital_usdt ⊗ d.lit 9 1

  -- The state in which `main` starts the thread, from the configuration, the kill switch and the time.
  unfoldable pub start : Config F → Bool → ℕ → Pipeline F
  unfolding Orderbook.new strategy_for Risk.new Dashboard.new
  start cfg halt now = record {
    book = Orderbook.new cfg.symbol cfg.orderbook.depth_levels;
    strat = strategy_for cfg.strategy (strategy_budget cfg.paper.initial_capital_usdt);
    risk = Risk.with_balance_source (
        Risk.with_halt_flag (
          Risk.new cfg.risk.max_order_qty cfg.risk.min_free_balance_usdt cfg.risk.price_band_pct
            cfg.risk.max_orders_per_sec));
    dash_state = Dashboard.new cfg.symbol cfg.paper.initial_capital_usdt cfg.paper.fee_pct halt now;
    resync_needed = false;
    orders = [];
    event_count = 0;
  }

  -- What the risk checker reads, with the two shared cells.
  abbrev pub env_of : SharedState F → Reading → Env F
  env_of s r = record { halt = s.halt_flag; cash = s.cash_bits; now = r.instant; uuid = r.uuid }

  -- The answer of the risk checks: an accepted order is sent, an error is logged.
  abbrev pub with_answer :
      Pipeline F → RiskChecker F × Result (ValidatedOrder F) (RiskError F) → Pipeline F
  with_answer p (risk, ok order) = record p { risk = risk; orders = order ∷ p.orders }
  with_answer p (risk, err e) = record p { risk = risk }

  -- The checks for a signal that is no `hold`; `none` is a panic.
  abbrev pub submit : Pipeline F → Env F → Signal F → F → Option (Pipeline F)
  submit p env hold mid = some p
  submit p env (buy price qty) mid =
      Option.map (with_answer p) (Risk.check p.risk env (buy price qty) mid)
  submit p env (sell price qty) mid =
      Option.map (with_answer p) (Risk.check p.risk env (sell price qty) mid)

  abbrev pub with_price : Option F → SharedState F → SharedState F
  with_price none s = s
  with_price (some price) s = update_price_history s price

  -- `snap.bids.first()`, or 0.0
  abbrev pub mid_of : OrderbookSnapshot F → F
  mid_of snap = Option.get_or (first_price snap.bids) zero_f

  abbrev pub show_snapshot : OrderbookSnapshot F → Pipeline F → Pipeline F
  show_snapshot snap p = record p { dash_state = record (p.dash_state) { snapshot = some snap } }

  -- The part that runs once an update was applied to a live book.
  unfoldable pub trade_on : Pipeline F → OrderbookSnapshot F → Reading → Option (Pipeline F)
  trade_on p snap at =
      let dash = with_price (first_price snap.bids) p.dash_state in
      let r = on_orderbook p.strat snap in
      Option.map (show_snapshot snap)
        (submit (record p { dash_state = dash; strat = r.0 }) (env_of dash at) r.1 (mid_of snap))

  abbrev pub flagged : SharedState F → Bool → SharedState F
  flagged s live = record s { event_count = incr s.event_count; connected = true; is_live = live }

  -- The arms for the results of `handle_update`.
  unfoldable pub after_update : Pipeline F → Result Bool String → Reading → Option (Pipeline F)
  unfolding trade_on
  after_update p (ok true) at =
      let live = Orderbook.is_live p.book in
      let p' = record p { dash_state = flagged p.dash_state live } in
      if live then trade_on p' (Orderbook.snapshot p.book at.unix_ms) at else some p'
  after_update p (ok false) at = some (record p { dash_state = flagged p.dash_state false })
  after_update p (err e) at = some (record p { book = Orderbook.reset p.book })

  abbrev pub dispatch : Pipeline F → MarketEvent → Reading → Option (Pipeline F)
  dispatch p (depth_update update) at =
      let r = Orderbook.handle_update p.book update p.resync_needed in
      after_update (record p { book = r.book; resync_needed = r.resync_needed }) r.result at
  dispatch p (depth_snapshot snapshot) at =
      some (record p { book = (Orderbook.handle_snapshot p.book snapshot).0 })
  dispatch p (trade t) at = some p
  dispatch p reconnect at = some (record p {
    book = Orderbook.reset p.book;
    dash_state = record (p.dash_state) { connected = false; is_live = false };
  })

  -- One round of the loop.
  unfoldable pub handle_event : Pipeline F → MarketEvent → Reading → Option (Pipeline F)
  unfolding after_update
  handle_event p event at = dispatch (record p { event_count = incr p.event_count }) event at
