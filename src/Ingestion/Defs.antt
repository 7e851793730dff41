-- ===== src/Ingestion/Defs.antt =====
-- The data of src/ingestion.rs, a fetched snapshot, and what one message from the socket leads to.
use mathlib.Core.Option
use Prim.Native.Nat.{min}
use Prim.Native.String.{len, ◌++◌ as ◌<>◌}
use package.text.Mathlib.Text.{get?, ◌==◌ as str_eq}
use rust_hft.Common.{
  ℕ, Bool, true, false, Option, none, some, List, String, Result, ok, ◌>>=◌, if◌then◌else◌,
}
use rust_hft.Types.{DepthUpdate, DepthSnapshot, Trade, MarketEvent, depth_update, trade}
use rust_hft.Watchdog.{Watchdog, touch}

pub record SnapshotResponse : Type 0 where
  pub last_update_id : ℕ
  pub bids : List (String × String)
  pub asks : List (String × String)

-- `serde_json::from_str` at the two types; `none` is an error.
pub record Codec : Type 0 where
  pub depth_update_of : String → Option DepthUpdate
  pub trade_of : String → Option Trade

-- `tungstenite::Message`, with the kinds that the loop ignores in one.
pub data Message : Type 0 where
  text : String → Message
  ping : Message
  close : Message
  other : Message

-- `read.next()`: `Some(Ok)`, `Some(Err)` and `None`.
pub data Read : Type 0 where
  received : Message → Read
  failed : Read
  ended : Read

unfoldable pub depth_url : String → String → String
depth_url rest_url symbol = rest_url <> ("/fapi/v1/depth?symbol=" <> (symbol <> "&limit=1000"))

-- `lower` is `to_lowercase`.
unfoldable pub stream_url : (String → String) → String → String → String
stream_url lower ws_url symbol =
    ws_url <> ("/" <> (lower symbol <> ("@depth@100ms/" <> (lower symbol <> "@aggTrade"))))

-- The base that `run_ingestion` fixes.
abbrev pub default_rest_url : String
default_rest_url = "https://fapi.binance.com"

abbrev pub snapshot_of : SnapshotResponse → DepthSnapshot
snapshot_of resp = record {
  last_update_id = resp.last_update_id;
  bids = resp.bids;
  asks = resp.asks;
}

-- `get` is the HTTP request with the reading of its JSON.
unfoldable pub fetch_snapshot :
    {E : Type 0} → (String → Result SnapshotResponse E) → String → String → Result DepthSnapshot E
unfolding depth_url
fetch_snapshot get rest_url symbol =
    get (depth_url rest_url symbol) >>= λ resp. ok (snapshot_of resp)

-- The text as a depth update or as a trade, if its type says so: the event that is sent.
unfoldable pub update_event : Option DepthUpdate → Option MarketEvent
update_event none = none
update_event (some update) =
    if str_eq update.event_type "depthUpdate" then some (depth_update update) else none

unfoldable pub trade_event : Option Trade → Option MarketEvent
trade_event none = none
trade_event (some t) = if str_eq t.event_type "aggTrade" then some (trade t) else none

-- The first test that succeeds.
abbrev pub first_event : Option MarketEvent → Option MarketEvent → Option MarketEvent
first_event (some event) later = some event
first_event none later = later

unfoldable pub classify : Codec → String → Option MarketEvent
unfolding update_event trade_event
classify codec raw =
    first_event (update_event (codec.depth_update_of raw)) (trade_event (codec.trade_of raw))

-- `&raw[..raw.len().min(120)]`, which panics within a character. It is an argument of a log line of the
-- level INFO, so it is evaluated when that level is on, as it is by default and in this model.
abbrev pub preview : String → Option String
preview raw = get? raw 0 (min (len raw) 120)

-- What one round of the loop over the socket leads to: the watchdog, the event that is sent, whether
-- a pong is sent, and whether the loop goes on.
pub record Handled : Type 0 where
  pub watchdog : Watchdog
  pub sent : Option MarketEvent
  pub pong : Bool
  pub goes_on : Bool

abbrev pub quiet : Watchdog → Handled
quiet w = record { watchdog = w; sent = none; pong = false; goes_on = true }

abbrev pub broken : Watchdog → Handled
broken w = record { watchdog = w; sent = none; pong = false; goes_on = false }

-- A text that was recognised, or one that is logged; `none` is a panic.
abbrev pub on_text : Watchdog → ℕ → String → Option MarketEvent → Option Handled
on_text w now raw (some event) =
    some (record { watchdog = touch w now; sent = some event; pong = false; goes_on = true })
on_text w now raw none = Option.map (λ s. quiet w) (preview raw)

unfoldable pub on_read : Codec → Watchdog → ℕ → Read → Option Handled
unfolding classify touch
on_read codec w now (received (text raw)) = on_text w now raw (classify codec raw)
on_read codec w now (received ping) = some (record (quiet w) { pong = true })
on_read codec w now (received close) = some (broken w)
on_read codec w now (received other) = some (quiet w)
on_read codec w now failed = some (broken w)
on_read codec w now ended = some (broken w)
