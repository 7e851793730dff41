-- ===== src/Tests/Booking.antt =====
-- A schedule of all tasks in which an order is sent and executed, in exact arithmetic.
use mathlib.Core.Option
use rust_hft.Common.{
  inl, inr, arith, length, ◌^◌, true, ◌≡◌, refl, false, none, some, List, [], ◌∷◌,
}
use rust_hft.Common.Int.{ℤ, pos, ◌+ℤ◌}
use rust_hft.Double.{Double}
use rust_hft.Double.Fixed.{thousandths, thousandths-IsExact}
use rust_hft.Pipeline
use rust_hft.Ingestion
use rust_hft.Orderbook
use rust_hft.Strategy.Trait
use rust_hft.Strategy.PingPong
use rust_hft.Double.Fixed
use rust_hft.BTreeMap
use rust_hft.Dashboard
use rust_hft.Execution
use rust_hft.Pnl
use rust_hft.Risk
use rust_hft.Watchdog
use rust_hft.Config.{Config}
use rust_hft.Pnl.{new_account, equity}
use rust_hft.Types.{buy}
use rust_hft.Ingestion.{received, text}
use rust_hft.Pipeline.{Reading}
use rust_hft.System.{
  System, Action, connected, read_socket, start_fetch, handle, fetched, execute, begin, step,
  run_all,
}
use rust_hft.Pnl.Ledger.{volume}
use rust_hft.Strategy.Trades.{open_qty}
use rust_hft.Execution.Positions.{amount, open_of}
use rust_hft.System.Positions.{IsAccepted, run_all-InPosition}
use rust_hft.System.Steps.{IsAlong}
use rust_hft.System.Booking.{taken, Booked, run_all-Booked}
use rust_hft.System.Conservation.{run_all_conserves}
use rust_hft.Tests.Data.{first_snapshot}
use rust_hft.Tests.Mirror.{codec, reading}

instance abbrev pub thousandths_double : Double ℤ
thousandths_double = thousandths

abbrev trading : Config ℤ
trading = record {
  mode = "paper";
  symbol = "btcusdt";
  strategy = "pingpong";
  paper = record { initial_capital_usdt = pos (10 ^ 18); fee_pct = pos 1 };
  risk = record {
    max_order_qty = pos (10 ^ 18);
    min_free_balance_usdt = pos 10;
    price_band_pct = pos (10 ^ 18);
    max_orders_per_sec = 2;
  };
  orderbook = record { depth_levels = 5 };
  exchange = record { ws_url = "wss://stream"; rest_url = "https://rest" };
  watchdog = record { timeout_secs = 30 };
  dashboard = record { port = 3000; enabled = true };
}

abbrev schedule : List Action
schedule =
    connected
    ∷ start_fetch
    ∷ fetched (some first_snapshot)
    ∷ handle reading
    ∷ read_socket 7 (received (text "u"))
    ∷ handle reading
    ∷ execute "now"
    ∷ []

abbrev final : System ℤ
unfolding run_all
final = Option.get_or (run_all codec 30 (begin trading false 0) schedule) (begin trading false 0)

-- The schedule can be taken to its end, the executor takes the one order that is sent, and no signal
-- is rejected.
final_reached :
    (run_all codec 30 (begin trading false 0) schedule ≡ some final)
    × (taken final.executed final.thread.orders
        ≡ (record { signal = buy (pos 100_000_000) (pos 10_000); client_order_id = "a1" }) ∷ [])
    × IsAlong IsAccepted codec 30 (begin trading false 0) schedule
unfolding IsAlong final Option.bind step begin Pipeline.handle_event Ingestion.on_read
    Orderbook.handle_update Orderbook.handle_snapshot Orderbook.position Orderbook.is_live
    Trait.on_orderbook PingPong.on_orderbook Orderbook.snapshot Orderbook.apply_levels
    Orderbook.apply_level Fixed.fixed BTreeMap.insert Dashboard.add_trade Dashboard.new
    Dashboard.push_bounded Dashboard.update_price_history Execution.execute
    Execution.execute_with_state Execution.new Ingestion.classify Ingestion.trade_event
    Ingestion.update_event Orderbook.new Orderbook.price_to_key Orderbook.replay
    Orderbook.snapshot_level Orderbook.update_in Pipeline.after_update Pipeline.start
    Pipeline.strategy_for Pipeline.trade_on Pnl.account_on_buy Pnl.new new_account Pnl.on_buy
    Risk.admit Risk.check Risk.make_room Risk.new Risk.note_order Risk.refusal PingPong.default
    PingPong.enter PingPong.entry_qty_at PingPong.new run_all Watchdog.new Watchdog.touch
final_reached = (refl, refl, (tt, (tt, (tt, (inl refl, (tt, (inr (omega arith), (tt, tt))))))))

run_all-Booked_example : Booked (new_account (pos (10 ^ 18)) (pos 1)) "btcusdt" final
run_all-Booked_example = run_all-Booked trading false 0 codec 30 schedule final final_reached.0

run_all_conserves_example :
    equity final.thread.dash_state.account none +ℤ final.thread.dash_state.account.total_fees
    ≡ final.thread.dash_state.account.initial_capital
      +ℤ final.thread.dash_state.account.pnl.realized_pnl
unfolding thousandths-IsExact
run_all_conserves_example =
    run_all_conserves thousandths-IsExact trading false 0 codec 30 schedule final final_reached.0

run_all-InPosition_example :
    (volume thousandths-IsExact final.thread.dash_state.account.pnl.buy_queue
      ≡ amount thousandths-IsExact (open_of (taken final.executed final.thread.orders)))
    × (final.executed ≡ length final.thread.orders
        → volume thousandths-IsExact final.thread.dash_state.account.pnl.buy_queue
          ≡ amount thousandths-IsExact (open_qty final.thread.strat))
run_all-InPosition_example =
    run_all-InPosition thousandths-IsExact trading false 0 codec 30 schedule final final_reached.2
      final_reached.0
