-- ===== src/Tests/Trading.antt =====
-- The risk checks, the strategies and the thread on concrete inputs.
use rust_hft.Common.{◌≡◌, ◌↔◌, refl, true, false, none, some, [], ◌∷◌, ok, err, arith}
use rust_hft.Common.Int.{ℤ, pos}
use rust_hft.Double.Fixed.{fixed}
use rust_hft.Types.{buy, sell}
use rust_hft.Risk.{RiskChecker, check, note_order, refusal, admit, max_qty_exceeded}
use rust_hft.Risk.Gates.{is_accepted, Permits, Covers, Explains, check_buy_iff, check-Explains}
use rust_hft.Risk.SeenIds.{HasWindow, check-HasWindow}
use rust_hft.Risk.RateLimit.{Run, IsLimited, run-IsLimited}
use rust_hft.Strategy.Trait.{Strategy, ping_pong, on_orderbook}
use rust_hft.Strategy.PingPong
use rust_hft.Strategy.PingPong.{PingPongStrategy}
use rust_hft.Strategy.Momentum
use rust_hft.Strategy.Momentum.{MomentumScalpStrategy}
use rust_hft.Strategy.Trades.{Alternates, signals, signals-Alternates}
use rust_hft.Strategy.Momentum.Timing.{sells, orders, is_sell, sells_in_time, orders_after_sell}
use rust_hft.Strategy.Momentum.Ring.{pushed, lookback_price-pushed}
use rust_hft.Tests.Data.{decimal_double, units, quotes, checker, env}

check_buy_iff_example :
    (is_accepted (check checker env (buy (units 100) (units 1)) (units 100)) ≡ true) ↔ (
      Permits checker env (units 100) (units 1) (units 100)
      × Covers checker env (units 100) (units 1))
check_buy_iff_example = check_buy_iff checker env (units 100) (units 1) (units 100)

check-Explains_example :
    Explains checker env
      (buy (units 100) (units 1))
      (check checker env (buy (units 100) (units 1)) (units 100))
check-Explains_example = check-Explains checker env (buy (units 100) (units 1)) (units 100)

-- The checker after one accepted order.
abbrev noted : RiskChecker ℤ
unfolding note_order
noted = note_order checker "a1" 5_000_000_000

accepted_run :
    check checker env (buy (units 100) (units 1)) (units 100)
    ≡ some (noted, ok (record { signal = buy (units 100) (units 1); client_order_id = "a1" }))
unfolding check refusal admit fixed noted
accepted_run = refl

rejected_run :
    check checker env (buy (units 100) (units 2)) (units 100)
    ≡ some (checker, err (max_qty_exceeded (units 2) (units 1)))
unfolding check refusal admit fixed
rejected_run = refl

checker-HasWindow : HasWindow checker
checker-HasWindow = record { same = λ x. refl; distinct = tt; bounded = omega arith }

check-HasWindow_example : HasWindow noted
check-HasWindow_example =
    check-HasWindow checker env (buy (units 100) (units 1)) (units 100) noted
      (ok (record { signal = buy (units 100) (units 1); client_order_id = "a1" })) checker-HasWindow
      accepted_run

run-IsLimited_example : IsLimited 2 (5_000_000_000 ∷ [])
run-IsLimited_example =
    run-IsLimited checker noted (5_000_000_000 ∷ []) 5_000_000_000 refl (omega arith) (
      Run.call env (buy (units 100) (units 1)) (units 100)
        (ok (record { signal = buy (units 100) (units 1); client_order_id = "a1" })) Run.start
        (omega arith) accepted_run)

-- A strategy that buys 0.5 on a spread, and the edge of one percent that it waits for.
abbrev flat : Strategy ℤ
flat = ping_pong (record {
  qty = pos 5_000_000_000;
  max_notional = none;
  min_edge_pct = units 1;
  stop_pct = units 1;
  holding = false;
  entry_price = pos 0;
  entry_qty = pos 0;
})

bought_and_sold :
    signals flat (quotes 100 101 ∷ quotes 110 111 ∷ [])
    ≡ buy (units 100) (pos 5_000_000_000) ∷ sell (units 111) (pos 5_000_000_000) ∷ []
unfolding signals on_orderbook PingPong.on_orderbook PingPong.enter PingPong.exit
    PingPong.entry_qty_at fixed
bought_and_sold = refl

signals-Alternates_example : Alternates none (signals flat (quotes 100 101 ∷ quotes 110 111 ∷ []))
signals-Alternates_example = signals-Alternates flat (quotes 100 101 ∷ quotes 110 111 ∷ [])

-- A momentum strategy with a position that it may hold for two more ticks.
abbrev pub holder : MomentumScalpStrategy ℤ
unfolding Momentum.new
holder = record (Momentum.new (units 1) 2 (units 1) (units 1) (units 5) (units 5) 3 2) {
  holding = true;
  entry_price = units 100;
  entry_qty = units 1;
  held_ticks = 1;
}

sells_in_time_example : sells holder (quotes 100 101 ∷ quotes 100 101 ∷ []) ≡ true
unfolding holder
sells_in_time_example =
    sells_in_time (quotes 100 101 ∷ quotes 100 101 ∷ []) holder refl (omega arith) (omega arith)
      (tt, (tt, tt)) (omega arith)

stop_loss : is_sell (Momentum.on_orderbook holder (quotes 90 91)).1 ≡ true
unfolding holder Momentum.on_orderbook Momentum.decide Momentum.exit Momentum.push_price fixed
stop_loss = refl

orders_after_sell_example :
    orders (Momentum.on_orderbook holder (quotes 90 91)).0 (quotes 100 101 ∷ quotes 120 121 ∷ [])
    ≡ false
unfolding holder
orders_after_sell_example =
    orders_after_sell holder (quotes 90 91) (quotes 100 101 ∷ quotes 120 121 ∷ []) stop_loss
      (omega arith)

lookback_price-pushed_example :
    Momentum.lookback_price (
      pushed
        (Momentum.new (units 1) 1 (units 1) (units 1) (units 5) (units 5) 3 2)
        (units 103 ∷ units 102 ∷ []))
    ≡ some (units 102)
lookback_price-pushed_example =
    lookback_price-pushed (units 1) (units 1) (units 1) (units 5) (units 5) 1 3 2
      (units 103 ∷ units 102 ∷ [])
