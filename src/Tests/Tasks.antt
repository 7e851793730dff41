-- ===== src/Tests/Tasks.antt =====
-- Schedules of the tasks on concrete inputs.
use mathlib.Core.Option
use rust_hft.Common.{◌≡◌, refl, true, false, none, some, [], ◌∷◌}
use rust_hft.Common.Int.{ℤ}
use rust_hft.Types.{reconnect}
use rust_hft.Orderbook
use rust_hft.Watchdog
use rust_hft.Risk
use rust_hft.Ingestion.{Codec}
use rust_hft.Pipeline.{Reading, start}
use rust_hft.System.{
  System, up, connected, start_fetch, fetched, wake, handle, poll, look, begin, with_flag,
  with_halt, push, step, run_all,
}
use rust_hft.System.Steps.{IsAlong}
use rust_hft.System.Liveness.{GoesLive, run_all-GoesLive}
use rust_hft.System.Stuck.{IsStuck, run_all-IsStuck, wake-IsStuck, failed_fetch-IsStuck}
use rust_hft.System.Switch.{IsHalted, run_all-IsHalted}
use rust_hft.System.Ledger.{IsKept, run_all-IsKept}
use rust_hft.Tests.Data.{decimal_double, settings, live_book, first_snapshot}

abbrev codec : Codec
codec = record { depth_update_of = λ s. none; trade_of = λ s. none }

abbrev reading : Reading
reading = record { unix_ms = 7; instant = 5_000_000_000; uuid = "a1" }

abbrev begun : System ℤ
begun = begin settings false 0

-- The socket is open and its snapshot is asked for.
abbrev asked : System ℤ
asked = with_flag (record begun { link = up; starting = 0; fetching = 1; pollers = 1 }) false

run_all-GoesLive_example : GoesLive codec 30 asked
unfolding IsAlong run_all step begin start Option.bind
run_all-GoesLive_example =
    run_all-GoesLive settings false 0 codec 30 (connected ∷ start_fetch ∷ []) asked reading
      first_snapshot (tt, (tt, tt)) refl refl

-- The snapshot was refused.
abbrev refused : System ℤ
refused = record begun { link = up; pollers = 1 }

refused-IsStuck : IsStuck refused
unfolding begin start Orderbook.new Orderbook.is_live
refused-IsStuck = (
  record {
    link_up = refl;
    none_sent = tt;
    none_asked = refl;
    none_starting = refl;
    none_fetching = refl;
    none_refetching = refl;
  },
  refl,
)

run_all-IsStuck_example :
    IsStuck (push refused (reconnect ∷ []))
    × ((push refused (reconnect ∷ [])).thread.orders ≡ refused.thread.orders)
unfolding IsAlong run_all step begin start Watchdog.new Option.bind
run_all-IsStuck_example =
    run_all-IsStuck codec 30 refused (poll ∷ wake 40_000 ∷ []) (push refused (reconnect ∷ []))
      refused-IsStuck (tt, (tt, tt)) refl

failed_fetch-IsStuck_example :
    (s' : System ℤ) × (run_all codec 30 begun (connected ∷ start_fetch ∷ fetched none ∷ [])
      ≡ some s')
    × IsStuck s'
unfolding begin start Orderbook.new Orderbook.is_live
failed_fetch-IsStuck_example = failed_fetch-IsStuck codec 30 begun refl tt refl refl refl refl

-- A socket that is read, and a live book.
abbrev settled : System ℤ
settled = record refused { thread = record (refused.thread) { book = live_book } }

wake-IsStuck_example :
    (s' : System ℤ) × (run_all codec 30 settled (wake 40_000 ∷ handle reading ∷ []) ≡ some s')
    × IsStuck s'
unfolding begin start Watchdog.new
wake-IsStuck_example =
    wake-IsStuck codec 30 settled 40_000 reading
      (record {
        link_up = refl;
        none_sent = tt;
        none_asked = refl;
        none_starting = refl;
        none_fetching = refl;
        none_refetching = refl;
      })
      refl refl

abbrev halted : System ℤ
halted = with_halt (record begun { halt_file = true }) true

run_all-IsHalted_example :
    IsHalted (record halted { seen = some true })
    × ((record halted { seen = some true }).thread.orders ≡ halted.thread.orders)
unfolding IsAlong run_all step begin start Risk.new Option.bind
run_all-IsHalted_example =
    run_all-IsHalted codec 30 halted (look ∷ []) (record halted { seen = some true })
      (record { wired = refl; flag_on = refl; file_there = refl; seen_there = λ e. cc }) (tt, tt)
      refl

run_all-IsKept_example : IsKept asked
unfolding run_all step begin start Option.bind
run_all-IsKept_example =
    run_all-IsKept settings false 0 codec 30 (connected ∷ start_fetch ∷ []) asked refl
