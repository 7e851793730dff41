-- ===== src/Ingestion/Sends.antt =====
-- What a read from the socket can send, and when the connection goes on.
use rust_hft.Common.{ℕ, ◌≡◌, Bool, true, false, Option, none, some, String, arith}
use rust_hft.Types.{MarketEvent, depth_update, depth_snapshot, trade, reconnect}
use rust_hft.Watchdog.{Watchdog}
use rust_hft.Ingestion.Defs.{
  Codec, Read, text, ping, close, other, received, failed, ended, Handled, on_read,
}
use rust_hft.Ingestion.Reads.{Means, Ends, Handles, on_read-Handles}

-- What a read can send.
abbrev pub IsFeed : Option MarketEvent → Type 0
IsFeed none = Unit
IsFeed (some (depth_update u)) = Unit
IsFeed (some (trade t)) = Unit
IsFeed (some (depth_snapshot s)) = ⊥
IsFeed (some reconnect) = ⊥

Means-IsFeed :
    (codec : Codec) (raw : String) (o : Option MarketEvent) → Means codec raw o → IsFeed o
Means-IsFeed codec raw none m = tt
Means-IsFeed codec raw (some (depth_update u)) m = tt
Means-IsFeed codec raw (some (trade t)) m = tt
Means-IsFeed codec raw (some (depth_snapshot s)) m = absurd m
Means-IsFeed codec raw (some reconnect) m = absurd m

pub on_read-IsFeed :
    (codec : Codec) (w : Watchdog) (now : ℕ) (r : Read) (h : Handled)
    → on_read codec w now r ≡ some h
    → IsFeed h.sent
on_read-IsFeed codec w now r h e = by_read r (rw e at (on_read-Handles codec w now r))
  where
    by_read : (r : Read) → Handles codec w now r (some h) → IsFeed h.sent
    by_read (received (text raw)) k = Means-IsFeed codec raw h.sent k.0
    by_read (received ping) k = rw k.0 tt
    by_read (received close) k = rw k.0 tt
    by_read (received other) k = rw k.0 tt
    by_read failed k = rw k.0 tt
    by_read ended k = rw k.0 tt

-- The connection outlives exactly the reads that do not end it.
pub goes_on_lem :
    (codec : Codec) (w : Watchdog) (now : ℕ) (r : Read) (h : Handled)
    → on_read codec w now r ≡ some h
    → ¬ Ends r
    → h.goes_on ≡ true
goes_on_lem codec w now r h e n = by_read r n (rw e at (on_read-Handles codec w now r))
  where
    by_end : (b : Bool) → ¬ (b ≡ false) → b ≡ true
    by_end b n = ground arith

    by_read : (r : Read) → ¬ Ends r → Handles codec w now r (some h) → h.goes_on ≡ true
    by_read (received (text raw)) n k = k.1
    by_read (received ping) n k = by_end h.goes_on (λ e. k.2.0 e)
    by_read (received close) n k = absurd (n tt)
    by_read (received other) n k = by_end h.goes_on (λ e. k.2.0 e)
    by_read failed n k = absurd (n tt)
    by_read ended n k = absurd (n tt)
