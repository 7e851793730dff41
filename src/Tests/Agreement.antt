-- ===== src/Tests/Agreement.antt =====
-- Two schedules at one exchange: the first connection succeeds, or it is refused.
use rust_hft.Common.{◌≡◌, refl, false, some, List, [], ◌∷◌}
use rust_hft.Double.Fixed.{decimal-IsFloat}
use mathlib.Core.Option
use rust_hft.Orderbook
use rust_hft.Ingestion.{received, text, on_read, classify, update_event}
use rust_hft.Pipeline
use rust_hft.Pipeline.{handle_event}
use rust_hft.System.{
  System, Action, connected, refused, read_socket, start_fetch, handle, fetched, begin, step,
  run_all,
}
use rust_hft.System.Steps.{IsAlong}
use rust_hft.System.Convergence.{snapshot-agrees}
use rust_hft.Common.Int.{ℤ}
use rust_hft.Tests.Data.{decimal_double, settings, first_snapshot}
use rust_hft.Tests.Mirror.{exchange, codec, reading, schedule, final, read-IsHonest}

-- The first attempt to connect fails.
abbrev other_schedule : List Action
other_schedule =
    refused
    ∷ handle reading
    ∷ connected
    ∷ read_socket 7 (received (text "u"))
    ∷ start_fetch
    ∷ handle reading
    ∷ fetched (some first_snapshot)
    ∷ handle reading
    ∷ []

abbrev other_final : System ℤ
unfolding run_all
other_final =
    Option.get_or (run_all codec 30 (begin settings false 0) other_schedule)
      (begin settings false 0)

snapshot-agrees_example :
    Orderbook.snapshot final.thread.book 5 ≡ Orderbook.snapshot other_final.thread.book 5
unfolding run_all step IsAlong Option.bind begin Pipeline.start on_read classify update_event
    handle_event Orderbook.handle_update Orderbook.handle_snapshot Orderbook.position
    Orderbook.replay Orderbook.reset
snapshot-agrees_example =
    snapshot-agrees decimal-IsFloat exchange settings false false 0 0 codec codec 30 schedule
      other_schedule final other_final
      (tt, (read-IsHonest, (tt, (tt, ((λ k. (refl, refl)), (tt, tt))))))
      (tt, (tt, (tt, (read-IsHonest, (tt, (tt, ((λ k. (refl, refl)), (tt, tt)))))))) refl refl 103
      refl refl 5
