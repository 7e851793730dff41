-- ===== src/Tests/Solvency.antt =====
-- A buy that the checks accept and the executor books, in exact arithmetic.
use mathlib.Core.Option
use rust_hft.Common.{refl, arith, true, false, []}
use rust_hft.Common.Int.{ℤ, pos, ◌≤ℤ◌}
use rust_hft.Double.Fixed
use rust_hft.Double.Fixed.{thousandths-IsExact}
use rust_hft.Types.{buy, ValidatedOrder}
use rust_hft.Pnl
use rust_hft.Risk
use rust_hft.Risk.{RiskChecker, Env, note_order}
use rust_hft.Dashboard
use rust_hft.Dashboard.{SharedState}
use rust_hft.Execution
use rust_hft.Execution.{PaperExecutor, execute_with_state}
use rust_hft.Execution.Solvency.{execute_accepted_solvent}
use rust_hft.Tests.Booking.{thousandths_double}

abbrev checker : RiskChecker ℤ
checker = record {
  halted = false;
  halt_flag = true;
  balance_source = true;
  max_order_qty = pos 1000;
  min_free_balance_usdt = pos 10;
  price_band_pct = pos 2000;
  max_orders_per_sec = 2;
  seen_order_ids = [];
  seen_order_queue = [];
  order_timestamps = [];
  free_balance_usdt = pos 10_000;
}

abbrev env : Env ℤ
env = record { halt = false; cash = pos 2_000_000; now = 5_000_000_000; uuid = "a1" }

abbrev order : ValidatedOrder ℤ
order = record { signal = buy (pos 100) (pos 10); client_order_id = "a1" }

abbrev dash : SharedState ℤ
unfolding Dashboard.new
dash = Dashboard.new "btcusdt" (pos 2_000_000) (pos 1) false 0

abbrev executor : PaperExecutor ℤ
unfolding Execution.new
executor = Execution.new "btcusdt"

abbrev booked : PaperExecutor ℤ × SharedState ℤ
unfolding execute_with_state
booked = Option.get_or (execute_with_state executor dash "now" order) (executor, dash)

execute_accepted_solvent_example : pos 0 ≤ℤ booked.1.account.cash
unfolding dash executor booked Dashboard.new Execution.new execute_with_state Pnl.new_account
    Pnl.new Pnl.account_on_buy Pnl.on_buy Dashboard.add_trade Dashboard.push_bounded
    Execution.execute Risk.check Risk.refusal Risk.admit Risk.make_room note_order Fixed.fixed
    thousandths-IsExact
execute_accepted_solvent_example =
    execute_accepted_solvent thousandths-IsExact checker (note_order checker "a1" 5_000_000_000) env
      (pos 100) (pos 10) (pos 100) order executor dash "now" booked refl refl (omega arith) refl
      refl
