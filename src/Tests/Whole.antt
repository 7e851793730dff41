-- ===== src/Tests/Whole.antt =====
-- The thread and the backtest on concrete inputs.
use rust_hft.Common.{
  ℕ, ◌*◌, ◌+◌, ◌≤◌, ◌≡◌, refl, false, none, some, List, [], ◌∷◌, arith, length, All, err,
}
use rust_hft.Common.Int.{ℤ, pos}
use rust_hft.Double.Laws.{IsFinite}
use rust_hft.Double.Fixed.{fixed, decimal-IsFloat}
use rust_hft.Types.{depth_snapshot, depth_update, buy}
use rust_hft.Strategy.Trait.{Strategy, ping_pong, on_orderbook}
use rust_hft.Strategy.PingPong
use rust_hft.Strategy.Trades.{open_qty}
use rust_hft.Risk.{check, refusal, max_qty_exceeded}
use rust_hft.Dashboard.{first_price, update_price_history}
use rust_hft.Pipeline.{Pipeline, start, Reading, handle_event, trade_on, env_of, with_price, mid_of}
use rust_hft.Pipeline.Orders.{Sent}
use rust_hft.Pipeline.Safety.{IsSafe, run, handle_event-Sent, run-start, trade_on_rejected}
use rust_hft.Backtest
use rust_hft.Backtest.{Backtester, BacktestResult, Trade, Round}
use rust_hft.Backtest.Trades.{Fits, run_returns}
use rust_hft.Backtest.Clock.{walk_limited}
use rust_hft.Tests.Data.{
  decimal_double, units, settings, quotes, checker, env, live_book, first_update, second_update,
  first_snapshot, shared,
}

-- A strategy that buys `n` halves on a spread, and the edge of one percent that it waits for.
abbrev pub flat : ℕ → Strategy ℤ
flat n = ping_pong (record {
  qty = pos (5_000_000_000 * n);
  max_notional = none;
  min_edge_pct = units 1;
  stop_pct = units 1;
  holding = false;
  entry_price = pos 0;
  entry_qty = pos 0;
})

abbrev pub thread : Pipeline ℤ
thread = record {
  book = live_book;
  strat = flat 1;
  risk = checker;
  dash_state = shared;
  resync_needed = false;
  orders = [];
  event_count = 0;
}

abbrev pub reading : Reading
reading = record { unix_ms = 7; instant = 5_000_000_000; uuid = "a1" }

handle_event-Sent_example :
    (p' : Pipeline ℤ) × (handle_event thread (depth_update first_update) reading ≡ some p')
    × Sent thread (depth_update first_update) reading p'
handle_event-Sent_example = handle_event-Sent thread (depth_update first_update) reading

run-start_example :
    (p' : Pipeline ℤ) × (run (start settings false 0) (
        (depth_update first_update, reading)
        ∷ (depth_snapshot first_snapshot, reading)
        ∷ (depth_update second_update, reading)
        ∷ [])
      ≡ some p')
    × IsSafe p'
run-start_example = run-start decimal-IsFloat settings false 0 (
    (depth_update first_update, reading)
    ∷ (depth_snapshot first_snapshot, reading)
    ∷ (depth_update second_update, reading)
    ∷ [])

-- A strategy that buys 3 where the checker allows 1.
abbrev greedy : Pipeline ℤ
greedy = record thread { strat = flat 6 }

bids_three : (on_orderbook greedy.strat (quotes 100 101)).1 ≡ buy (units 100) (units 3)
unfolding on_orderbook PingPong.on_orderbook PingPong.enter PingPong.entry_qty_at fixed
bids_three = refl

refused :
    check checker
      (env_of (with_price (first_price (quotes 100 101).bids) shared) reading)
      (buy (units 100) (units 3))
      (mid_of (quotes 100 101))
    ≡ some (checker, err (max_qty_exceeded (units 3) (units 1)))
unfolding check refusal fixed shared update_price_history
refused = refl

trade_on_rejected_example :
    (p' : Pipeline ℤ) × (trade_on greedy (quotes 100 101) reading ≡ some p')
    × (p'.orders ≡ [])
    × (open_qty p'.strat ≡ some (units 3))
unfolding on_orderbook PingPong.on_orderbook PingPong.enter PingPong.entry_qty_at fixed
trade_on_rejected_example =
    trade_on_rejected greedy (quotes 100 101) reading checker (max_qty_exceeded (units 3) (units 1))
      refused

abbrev tester : Backtester ℤ
tester = record { orderbook = live_book; strategy = flat 1; risk = checker }

abbrev rounds : List (Round ℤ)
rounds =
    record { event = first_update; unix_ms = 7; env = env }
    ∷ record {
      event = second_update;
      unix_ms = 8;
      env = record env { now = 5_200_000_000; uuid = "a2" };
    }
    ∷ []

-- Every quantity of these numbers is finite.
qty-IsFinite : (ts : List (Trade ℤ)) → All (λ t. IsFinite t.qty) ts
unfolding fixed
qty-IsFinite [] = tt
qty-IsFinite (t ∷ ts) = (ground arith, qty-IsFinite ts)

run_returns_example :
    (b' : Backtester ℤ) × (res : BacktestResult ℤ) × (Backtest.run tester rounds
        (some first_snapshot)
      ≡ some (b', res))
    × All (Fits (units 1)) res.trades
    × (res.total_trades ≡ length res.trades)
    × (res.buy_trades + res.sell_trades ≡ res.total_trades)
run_returns_example =
    run_returns decimal-IsFloat tester rounds (some first_snapshot) (λ b' ts e. qty-IsFinite ts)

walk_limited_example :
    (b' : Backtester ℤ) × (trades : List (Trade ℤ)) × (Backtest.walk tester rounds
      ≡ some (b', trades))
    × (length trades ≤ 2)
walk_limited_example =
    walk_limited 5_000_000_000 rounds tester refl (omega arith)
      (omega arith, omega arith, (omega arith, omega arith, tt))
