-- ===== src/Tests/Mirror.antt =====
-- All tasks, and an exchange that sends one snapshot and one update.
use mathlib.Core.Option
use rust_hft.Common.{
  ℕ, ◌≡◌, refl, Bool, true, false, Option, none, some, All, List, [], ◌∷◌, String, leb,
  if◌then◌else◌,
}
use rust_hft.Common.Int.{ℤ}
use rust_hft.Types.{depth_update}
use rust_hft.Orderbook.Levels.{last_quote, after_batch}
use rust_hft.Orderbook.Exchange.{Exchange, IsMirror, Reports, last_positive}
use rust_hft.Orderbook
use rust_hft.Ingestion.{
  Codec, received, text, Handled, on_read, classify, update_event, trade_event,
}
use rust_hft.Pipeline
use mathlib.Core.Path.{subst}
use rust_hft.Watchdog
use rust_hft.Pipeline.Exchange.{IsHonest}
use rust_hft.Pipeline.{Reading, handle_event}
use rust_hft.System.{
  System, Action, connected, events_of, read_socket, start_fetch, handle, fetched, begin, step,
  run_all,
}
use rust_hft.System.Steps.{IsAlong}
use rust_hft.System.Mirror.{run_all-IsMirror}
use rust_hft.Tests.Data.{decimal_double, settings, first_update, first_snapshot}

-- What a side holds at each id: the snapshot's levels, and from the update's id on the update's too.
abbrev side_at : List (String × String) → List (String × String) → ℕ → ℕ → Option ℤ
side_at quoted shown n k =
    let base = last_positive k shown in
    if leb 103 n then after_batch (last_quote k quoted) base else base

abbrev pub exchange : Exchange ℤ
exchange = record {
  bids_at = side_at first_update.bids first_snapshot.bids;
  asks_at = side_at first_update.asks first_snapshot.asks;
}

-- A quantity stands as it was quoted, however often.
after_batch_twice :
    (quoted old : Option ℤ) (b : Bool)
    → after_batch quoted old ≡ after_batch quoted (if b then after_batch quoted old else old)
after_batch_twice none old true = refl
after_batch_twice none old false = refl
after_batch_twice (some q) old b = refl

first_update-Reports : Reports exchange first_update
first_update-Reports n k c = (
  after_batch_twice (last_quote k first_update.bids) (last_positive k first_snapshot.bids)
      (leb 103 n),
  after_batch_twice (last_quote k first_update.asks) (last_positive k first_snapshot.asks)
      (leb 103 n),
)

abbrev pub reading : Reading
reading = record { unix_ms = 7; instant = 5_000_000_000; uuid = "a1" }

abbrev pub codec : Codec
codec = record { depth_update_of = λ s. some first_update; trade_of = λ s. none }

-- The socket opens, an update is read and the snapshot is fetched; the thread takes both.
abbrev pub schedule : List Action
schedule =
    connected
    ∷ read_socket 7 (received (text "u"))
    ∷ start_fetch
    ∷ handle reading
    ∷ fetched (some first_snapshot)
    ∷ handle reading
    ∷ []

abbrev pub final : System ℤ
unfolding run_all
final = Option.get_or (run_all codec 30 (begin settings false 0) schedule) (begin settings false 0)

pub read-IsHonest :
    (h : Handled)
    → on_read codec (Watchdog.new 0) 7 (received (text "u")) ≡ some h
    → All (IsHonest exchange) (events_of h.sent)
unfolding on_read classify update_event trade_event Watchdog.new
read-IsHonest h e =
    let sent : Handled = record {
      watchdog = record { last_seen_ms = 7 };
      sent = some (depth_update first_update);
      pong = false;
      goes_on = true;
    } in
    let e' : some sent ≡ some h = e in
    let same : sent ≡ h = cc in
    subst (λ h. All (IsHonest exchange) (events_of h.sent)) same (first_update-Reports, tt)

run_all-IsMirror_example : IsMirror exchange 103 final.thread.book.bids final.thread.book.asks
unfolding run_all step IsAlong Option.bind begin Pipeline.start on_read classify update_event
    handle_event Orderbook.handle_update Orderbook.handle_snapshot Orderbook.position
    Orderbook.replay
run_all-IsMirror_example =
    run_all-IsMirror exchange settings false 0 codec 30 schedule final
      (tt, (read-IsHonest, (tt, (tt, ((λ k. (refl, refl)), (tt, tt)))))) refl 103 refl
