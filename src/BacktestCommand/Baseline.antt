-- ===== src/BacktestCommand/Baseline.antt =====
-- The command without arguments: made-up events and the strategy that never trades.
use mathlib.Core.Option
use rust_hft.Common.{
  ℕ, ◌≡◌, refl, ap, ◌∙◌, false, Option, none, some, List, [], ◌∷◌, String, Result, ok, inl, inr,
}
use rust_hft.Double.{Double, zero_f}
use rust_hft.Types.{DepthUpdate, DepthSnapshot}
use rust_hft.Config.{Config}
use rust_hft.Orderbook
use rust_hft.Orderbook.Sync.{handle_update-answer}
use rust_hft.Strategy.Trait.{no_op, on_orderbook}
use rust_hft.Risk.{Env}
use rust_hft.Pnl
use rust_hft.DataLoader.{Source, Printer}
use rust_hft.Backtest
use rust_hft.Backtest.{Backtester, Round, walk, with_first_snapshot, book_trades, result_of}
use rust_hft.BacktestCommand.Defs.{
  Options, default_options, Report, parse_args, strategy_of, data_of, rounds_from, backtester_of,
  report_of, backtest, main,
}

module _ {F : Type 0} ⦃d : Double F⦄ where
  -- A round of the strategy that never trades.
  step_no_op :
      (b : Backtester F) (r : Round F)
      → b.strategy ≡ no_op
      → (b' : Backtester F) × (Backtest.step b r ≡ some (b', [])) × (b'.strategy ≡ no_op)
  unfolding Backtest.step on_orderbook
  step_no_op b r e =
      let u = Orderbook.handle_update b.orderbook r.event false in
      let b' : Backtester F = record b { orderbook = u.book } in
      elim (handle_update-answer b.orderbook r.event false) [
        | inl (f, l) ↦ (record b' { strategy = no_op }, rw (f, e) refl, refl)
        | inr f ↦ (b', rw f refl, e)
      ]

  walk_no_op :
      (rs : List (Round F)) (b : Backtester F)
      → b.strategy ≡ no_op
      → (b' : Backtester F) × (walk b rs ≡ some (b', []))
  unfolding walk Option.bind
  walk_no_op [] b e = (b, refl)
  walk_no_op (r ∷ rs) b e =
      let (b', f, k) = step_no_op b r e in
      let (b'', g) = walk_no_op rs b' k in (b'', rw (f, g) refl)

  -- The report of a run without trades.
  pub record IsEmptyReport (r : Report F) : Type 0 where
    pub no_trade : r.total_trades ≡ 0
    pub no_buy : r.buy_trades ≡ 0
    pub no_sell : r.sell_trades ≡ 0
    pub no_pnl : r.realized_pnl ≡ zero_f

  snapshot_strategy :
      (b : Backtester F) (snapshot : Option DepthSnapshot)
      → (with_first_snapshot b snapshot).strategy ≡ b.strategy
  snapshot_strategy b none = refl
  snapshot_strategy b (some snap) = refl

  backtest_no_op :
      (read : ℕ → ℕ × Env F) (cfg : Config F) (o : Options) (snapshot : Option DepthSnapshot)
      (events : List DepthUpdate)
      → (r : Report F) × (backtest read cfg o no_op (snapshot, events) ≡ some r)
        × (r.strategy_name ≡ o.strategy_name)
        × IsEmptyReport r
  unfolding backtest Backtest.run backtester_of report_of Backtest.new book_trades Option.bind
      Pnl.new
  backtest_no_op read cfg o snapshot events =
      let b = backtester_of cfg no_op in
      let (b', e) =
        walk_no_op (rounds_from read 0 events) (with_first_snapshot b snapshot)
          (snapshot_strategy b snapshot) in
      (
        report_of o.strategy_name (result_of [] Pnl.new),
        rw e refl,
        refl,
        record { no_trade = refl; no_buy = refl; no_sell = refl; no_pnl = refl },
      )

  strategy_of_noop :
      {E J N : Type 0} (name : String)
      → name ≡ "noop"
      → strategy_of {F = F} {E = E} {J = J} {N = N} name ≡ ok no_op
  unfolding strategy_of
  strategy_of_noop name e = rw e refl

  -- If the arguments parse, name the strategy that never trades, and the data loads, then the command
  -- returns, whatever the configuration, the data and the clocks, and reports no trade and no profit
  -- or loss.
  pub main_no_op :
      {E J N : Type 0} (parse : String → Result ℕ N) (src : Source E J) (p : Printer F)
      (read : ℕ → ℕ × Env F) (cfg : Config F) (args : List String) (o : Options)
      (snapshot : Option DepthSnapshot) (events : List DepthUpdate)
      → parse_args {E = E} {J = J} parse args default_options ≡ ok o
      → o.strategy_name ≡ "noop"
      → data_of {N = N} src p cfg o ≡ ok (snapshot, events)
      → (r : Report F) × (main parse src p read (ok cfg) args ≡ some (ok r))
        × (r.strategy_name ≡ "noop")
        × IsEmptyReport r
  unfolding main
  main_no_op parse src p read cfg args o snapshot events e n loaded =
      let (r, f, name, empty) = backtest_no_op read cfg o snapshot events in
      (
        r,
        rw (e, loaded, strategy_of_noop o.strategy_name n) (ap (Option.map ok) f),
        name ∙ n,
        empty,
      )
