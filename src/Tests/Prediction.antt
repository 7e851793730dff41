-- ===== src/Tests/Prediction.antt =====
-- A backtest and a run of the thread on the same updates.
use mathlib.Core.Option
use rust_hft.Common.{◌≡◌, refl, none, some, List, [], ◌∷◌, map}
use rust_hft.Common.Int.{ℤ}
use rust_hft.Types.{DepthUpdate}
use rust_hft.Pnl.{PaperAccount, new_account}
use rust_hft.Pnl.Fills
use rust_hft.Execution.Fills.{fills}
use rust_hft.Pipeline.{Pipeline, Reading}
use rust_hft.Pipeline.Safety
use rust_hft.Pipeline
use rust_hft.Orderbook
use rust_hft.Strategy.Trait
use rust_hft.Strategy.PingPong
use rust_hft.Double.Fixed
use rust_hft.BTreeMap
use rust_hft.Dashboard
use rust_hft.Pnl
use rust_hft.Risk
use rust_hft.Tests.Data
use rust_hft.Backtest
use rust_hft.Backtest.{Trade, result_of}
use rust_hft.Backtest.Live.{trade_fill, shadow, round_of}
use rust_hft.Backtest.Predictions.{live_events, run_predicts}
use rust_hft.Tests.Data.{decimal_double, units, first_update, second_update}
use rust_hft.Tests.Whole.{thread, reading}

abbrev updates : List (DepthUpdate × Reading)
updates = (first_update, reading) ∷ (second_update, reading) ∷ []

abbrev live_end : Pipeline ℤ
unfolding Safety.run
live_end = Option.get_or (Safety.run thread (live_events updates)) thread

abbrev first_account : PaperAccount ℤ
first_account = new_account (units 1000) (units 1)

abbrev account_end : PaperAccount ℤ
unfolding Fills.run
account_end = Option.get_or (Fills.run first_account (fills live_end.orders)) first_account

live_run :
    (Safety.run thread (live_events updates) ≡ some live_end)
    × (Fills.run first_account (fills live_end.orders) ≡ some account_end)
unfolding live_end account_end Safety.run Fills.run Fills.fill Option.bind Pipeline.handle_event
    Orderbook.handle_update Orderbook.is_live Trait.on_orderbook PingPong.on_orderbook
    Orderbook.snapshot Orderbook.apply_levels Orderbook.apply_level Fixed.fixed BTreeMap.insert
    BTreeMap.remove Orderbook.price_to_key Orderbook.update_in Risk.check Risk.admit Risk.make_room
    Risk.note_order Risk.refusal Dashboard.update_price_history Dashboard.push_bounded Dashboard.new
    Data.shared Pipeline.after_update Pipeline.trade_on Pnl.new new_account Pnl.account_on_buy
    Pnl.account_on_sell Pnl.on_buy Pnl.on_sell Pnl.match_lots PingPong.enter PingPong.exit
    PingPong.entry_qty_at
live_run = (refl, refl)

run_predicts_example :
    (trades : List (Trade ℤ)) × (map trade_fill trades ≡ fills live_end.orders)
    × (Backtest.run (shadow thread) (map (round_of thread.dash_state) updates) none
        ≡ some (shadow live_end, result_of trades account_end.pnl))
run_predicts_example =
    run_predicts thread live_end updates (units 1000) (units 1) account_end refl live_run.0
      live_run.1
