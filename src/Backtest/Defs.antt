-- ===== src/Backtest/Defs.antt =====
-- The data and the methods of src/backtest/mod.rs.
use mathlib.Core.Option
use rust_hft.Common.{
  ℕ, Bool, true, false, not, Option, none, some, List, [], ◌∷◌, ◌++◌, String, Result, ok, err, map,
  retain, length,
}
use rust_hft.Double.{Double, sum}
use rust_hft.Types.{DepthUpdate, DepthSnapshot, Signal, buy, sell, hold, ValidatedOrder}
use rust_hft.Orderbook
use rust_hft.Orderbook.{Orderbook}
use rust_hft.Strategy.Trait.{Strategy, on_orderbook}
use rust_hft.Risk
use rust_hft.Risk.{RiskChecker, RiskError, Env}
use rust_hft.Pnl
use rust_hft.Pnl.{FifoPnl}
use rust_hft.Pipeline.{mid_of}

pub data TradeSide : Type 0 where
  bought : TradeSide
  sold : TradeSide

pub record Trade (F : Type 0) : Type 0 where
  pub side : TradeSide
  pub price : F
  pub qty : F
  pub timestamp_ms : ℕ

pub record BacktestResult (F : Type 0) : Type 0 where
  pub total_trades : ℕ
  pub buy_trades : ℕ
  pub sell_trades : ℕ
  pub total_volume : F
  pub realized_pnl : F
  pub trades : List (Trade F)

pub record Backtester (F : Type 0) : Type 0 where
  pub orderbook : Orderbook F
  pub strategy : Strategy F
  pub risk : RiskChecker F

-- An event, and what its round reads from outside: the wall clock, and what the risk checker reads.
pub record Round (F : Type 0) : Type 0 where
  pub event : DepthUpdate
  pub unix_ms : ℕ
  pub env : Env F

abbrev pub is_bought : TradeSide → Bool
is_bought bought = true
is_bought sold = false

module _ {F : Type 0} ⦃d : Double F⦄ where
  unfoldable pub new : String → ℕ → Strategy F → RiskChecker F → Backtester F
  unfolding Orderbook.new
  new symbol depth_levels strategy risk = record {
    orderbook = Orderbook.new symbol depth_levels;
    strategy = strategy;
    risk = risk;
  }

  -- The trades of an accepted order.
  abbrev pub trades_of : Signal F → ℕ → List (Trade F)
  trades_of (buy price qty) ms =
      record { side = bought; price = price; qty = qty; timestamp_ms = ms } ∷ []
  trades_of (sell price qty) ms =
      record { side = sold; price = price; qty = qty; timestamp_ms = ms } ∷ []
  trades_of hold ms = []

  -- The answer of the risk checks; a rejected order leaves no trade.
  abbrev pub answered :
      Backtester F
      → ℕ
      → RiskChecker F × Result (ValidatedOrder F) (RiskError F)
      → Backtester F × List (Trade F)
  answered b ms (risk, ok order) = (record b { risk = risk }, trades_of order.signal ms)
  answered b ms (risk, err e) = (record b { risk = risk }, [])

  -- The checks for a signal that is no `hold`; `none` is a panic.
  abbrev pub checked :
      Backtester F → Env F → ℕ → Signal F → F → Option (Backtester F × List (Trade F))
  checked b env ms hold mid = some (b, [])
  checked b env ms (buy price qty) mid =
      Option.map (answered b ms) (Risk.check b.risk env (buy price qty) mid)
  checked b env ms (sell price qty) mid =
      Option.map (answered b ms) (Risk.check b.risk env (sell price qty) mid)

  -- The arms for the results of `handle_update`.
  abbrev pub after_update :
      Backtester F → Round F → Result Bool String → Option (Backtester F × List (Trade F))
  after_update b r (ok true) =
      let snap = Orderbook.snapshot b.orderbook r.unix_ms in
      let s = on_orderbook b.strategy snap in
      checked (record b { strategy = s.0 }) r.env r.event.event_time s.1 (mid_of snap)
  after_update b r (ok false) = some (b, [])
  after_update b r (err e) = some (b, [])

  -- One round of the loop over the events. Its resync flag is made anew and dropped.
  unfoldable pub step : Backtester F → Round F → Option (Backtester F × List (Trade F))
  step b r =
      let u = Orderbook.handle_update b.orderbook r.event false in
      after_update (record b { orderbook = u.book }) r u.result

  -- The loop over the events, with the trades in order.
  unfoldable pub walk : Backtester F → List (Round F) → Option (Backtester F × List (Trade F))
  walk b [] = some (b, [])
  walk b (r ∷ rs) = Option.bind (step b r) (λ x. Option.map (λ y. (y.0, x.1 ++ y.1)) (walk x.0 rs))

  -- One trade in the ledger; `none` would be an `on_sell` that does not end.
  abbrev pub book_trade : FifoPnl F → Trade F → TradeSide → Option (FifoPnl F)
  book_trade pnl t bought = some (Pnl.on_buy pnl t.price t.qty)
  book_trade pnl t sold = Option.map (λ r. r.0) (Pnl.on_sell pnl t.price t.qty)

  -- The loop over the trades.
  unfoldable pub book_trades : FifoPnl F → List (Trade F) → Option (FifoPnl F)
  book_trades pnl [] = some pnl
  book_trades pnl (t ∷ ts) = Option.bind (book_trade pnl t t.side) (λ pnl'. book_trades pnl' ts)

  abbrev pub is_buy : Trade F → Bool
  is_buy t = is_bought t.side

  abbrev pub result_of : List (Trade F) → FifoPnl F → BacktestResult F
  result_of trades pnl = record {
    total_trades = length trades;
    buy_trades = length (retain is_buy trades);
    sell_trades = length (retain (λ t. not (is_buy t)) trades);
    total_volume = sum (map (λ t. t.qty) trades);
    realized_pnl = pnl.realized_pnl;
    trades = trades;
  }

  abbrev pub with_first_snapshot : Backtester F → Option DepthSnapshot → Backtester F
  with_first_snapshot b none = b
  with_first_snapshot b (some snap) = record b {
    orderbook = (Orderbook.handle_snapshot b.orderbook snap).0;
  }

  unfoldable pub run :
      Backtester F
      → List (Round F)
      → Option DepthSnapshot
      → Option (Backtester F × BacktestResult F)
  unfolding walk book_trades
  run b rounds snapshot =
      Option.bind (walk (with_first_snapshot b snapshot) rounds) (λ (b', trades).
        Option.map (λ pnl. (b', result_of trades pnl)) (book_trades Pnl.new trades))
