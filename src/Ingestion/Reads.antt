-- ===== src/Ingestion/Reads.antt =====
-- What a read from the socket leads to, and the message that stops the program.
use package.text.Mathlib.Text.{is_char_boundary, is_le, ◌==◌ as str_eq, get?}
use package.text.Mathlib.TextEquality.{eq_iff}
use package.text.Mathlib.TextPositions.{boundary-zero, boundary-len}
use mathlib.Core.Bool.{true≢false}
use Prim.Native.Nat.{min, compare}
use native.Mathlib.Decide.{dec_le}
use Prim.Native.String.{len, slice}
use rust_hft.Common.{
  ℕ, ◌<◌, ◌≡◌, ◌≢◌, ◌↔◌, refl, sym, ◌∙◌, true, false, Bool-cases, Option, none, some, ◌⊎◌, inl, inr,
  String, arith,
}
use rust_hft.Types.{DepthUpdate, Trade, MarketEvent, depth_update, depth_snapshot, trade, reconnect}
use rust_hft.Watchdog.{Watchdog, touch}
use rust_hft.Ingestion.Defs.{
  Codec, Read, text, ping, close, other, received, failed, ended, update_event, trade_event,
  classify, preview, Handled, on_text, on_read,
}

abbrev pub IsUpdate : Codec → String → DepthUpdate → Type 0
IsUpdate codec raw u = (codec.depth_update_of raw ≡ some u) × (u.event_type ≡ "depthUpdate")

abbrev pub IsTrade : Codec → String → Trade → Type 0
IsTrade codec raw t = (codec.trade_of raw ≡ some t) × (t.event_type ≡ "aggTrade")

-- What the text stands for: a depth update; or else a trade; or else nothing that the program knows.
abbrev pub Means : Codec → String → Option MarketEvent → Type 0
Means codec raw (some (depth_update u)) = IsUpdate codec raw u
Means codec raw (some (trade t)) =
    IsTrade codec raw t × ((u : DepthUpdate) → ¬ IsUpdate codec raw u)
Means codec raw (some (depth_snapshot s)) = ⊥
Means codec raw (some reconnect) = ⊥
Means codec raw none =
    ((u : DepthUpdate) → ¬ IsUpdate codec raw u) × ((t : Trade) → ¬ IsTrade codec raw t)

update_event_cases :
    (o : Option DepthUpdate)
    → ((u : DepthUpdate) × (o ≡ some u)
        × (u.event_type ≡ "depthUpdate")
        × (update_event o ≡ some (depth_update u)))
      ⊎ ((update_event o ≡ none)
          × ((u : DepthUpdate) → (o ≡ some u) → u.event_type ≢ "depthUpdate"))
unfolding update_event
update_event_cases none = inr (refl, λ u e. cc)
update_event_cases (some u) = elim (Bool-cases (str_eq u.event_type "depthUpdate")) [
  | inl e ↦ inl (u, refl, (eq_iff u.event_type "depthUpdate").0 e, rw e refl)
  | inr e ↦ inr (rw e refl, λ v f g. ground (arith, eq_iff u.event_type "depthUpdate"))
]

trade_event_cases :
    (o : Option Trade)
    → ((t : Trade) × (o ≡ some t) × (t.event_type ≡ "aggTrade") × (trade_event o ≡ some (trade t)))
      ⊎ ((trade_event o ≡ none) × ((t : Trade) → (o ≡ some t) → t.event_type ≢ "aggTrade"))
unfolding trade_event
trade_event_cases none = inr (refl, λ u e. cc)
trade_event_cases (some t) = elim (Bool-cases (str_eq t.event_type "aggTrade")) [
  | inl e ↦ inl (t, refl, (eq_iff t.event_type "aggTrade").0 e, rw e refl)
  | inr e ↦ inr (rw e refl, λ v f g. ground (arith, eq_iff t.event_type "aggTrade"))
]

classify_update :
    (codec : Codec) (raw : String) (event : MarketEvent)
    → update_event (codec.depth_update_of raw) ≡ some event
    → classify codec raw ≡ some event
unfolding classify
classify_update codec raw event e = rw e

classify_trade :
    (codec : Codec) (raw : String) (o : Option MarketEvent)
    → update_event (codec.depth_update_of raw) ≡ none
    → trade_event (codec.trade_of raw) ≡ o
    → classify codec raw ≡ o
unfolding classify
classify_trade codec raw o e f = rw (e, f)

classify-Means : (codec : Codec) (raw : String) → Means codec raw (classify codec raw)
classify-Means codec raw = elim (update_event_cases (codec.depth_update_of raw)) [
  | inl (u, e, f, g) ↦ rw (classify_update codec raw (depth_update u) g) (e, f)
  | inr (g, other_type) ↦ elim (trade_event_cases (codec.trade_of raw)) [
    | inl (t, e, f, h) ↦
        rw (classify_trade codec raw (some (trade t)) g h) ((e, f), λ u k. other_type u k.0 k.1)
    | inr (h, no_trade) ↦
        rw (classify_trade codec raw none g h)
          (λ u k. other_type u k.0 k.1, λ t k. no_trade t k.0 k.1)
  ]
]

-- The reads that end the connection.
abbrev pub Ends : Read → Type 0
Ends (received close) = Unit
Ends (received (text raw)) = ⊥
Ends (received ping) = ⊥
Ends (received other) = ⊥
Ends failed = Unit
Ends ended = Unit

-- Byte 120 of the text is within a character.
abbrev pub IsCut : String → Type 0
IsCut raw = (120 < len raw) × (is_char_boundary raw 120 ≡ false)

-- What a round of the loop over the socket does with a read: `none` is a panic.
abbrev pub Handles : Codec → Watchdog → ℕ → Read → Option Handled → Type 0
Handles codec w now (received (text raw)) none = Means codec raw none × IsCut raw
Handles codec w now (received ping) none = ⊥
Handles codec w now (received close) none = ⊥
Handles codec w now (received other) none = ⊥
Handles codec w now failed none = ⊥
Handles codec w now ended none = ⊥
Handles codec w now (received (text raw)) (some h) =
    Means codec raw h.sent
    × (h.goes_on ≡ true)
    × (((h.sent ≡ none) × (h.watchdog ≡ w) × ¬ IsCut raw)
        ⊎ ((h.sent ≢ none) × (h.watchdog ≡ touch w now)))
Handles codec w now r (some h) = (h.sent ≡ none) × (h.watchdog ≡ w) × ((h.goes_on ≡ false) ↔ Ends r)

zero_le_test : (n : ℕ) → is_le (compare 0 n) ≡ true
zero_le_test n = ground arith

get?_cases :
    (raw : String) (n : ℕ)
    → ((s : String) × (get? raw 0 n ≡ some s) × (is_char_boundary raw n ≡ true))
      ⊎ ((get? raw 0 n ≡ none) × (is_char_boundary raw n ≡ false))
get?_cases raw n = elim (Bool-cases (is_char_boundary raw n)) [
  | inl e ↦ inl (slice raw 0 n, rw (zero_le_test n, boundary-zero raw, e), e)
  | inr e ↦ inr (rw (zero_le_test n, boundary-zero raw, e) refl, e)
]

preview_cases :
    (raw : String)
    → ((s : String) × (preview raw ≡ some s) × ¬ IsCut raw) ⊎ ((preview raw ≡ none) × IsCut raw)
preview_cases raw = elim (dec_le (len raw) 120) [
  | yes h ↦
      let e : min (len raw) 120 ≡ len raw = omega arith in
      elim (get?_cases raw (len raw)) [
        | inl (s, f, b) ↦ inl (s, rw e f, λ c. omega (arith, c.0))
        | inr (f, g) ↦ absurd (true≢false (sym (boundary-len raw) ∙ g))
      ]
  | no h ↦
      let e : min (len raw) 120 ≡ 120 = omega arith in
      elim (get?_cases raw 120) [
        | inl (s, f, b) ↦ inl (s, rw e f, λ c. true≢false (sym b ∙ c.1))
        | inr (f, g) ↦ inr (rw e f, (omega arith, g))
      ]
]

some≢none : {A : Type 0} (a : A) → some a ≢ none
some≢none a h = cc

on_text-Handles :
    (codec : Codec) (w : Watchdog) (now : ℕ) (raw : String) (o : Option MarketEvent)
    → Means codec raw o
    → Handles codec w now (received (text raw)) (on_text w now raw o)
unfolding touch
on_text-Handles codec w now raw (some event) m = (m, refl, inr (some≢none event, refl))
on_text-Handles codec w now raw none m = elim (preview_cases raw) [
  | inl (s, e, whole) ↦ rw e (m, refl, inl (refl, refl, whole))
  | inr (e, cut) ↦ rw e (m, cut)
]

-- A text that is a depth update, or else a trade, is sent and touches the watchdog; any other text is
-- only logged, and stops the program with a panic exactly if it is longer than 120 bytes and its byte
-- 120 is within a character. No other read sends anything or panics, and the connection ends
-- exactly on a close, an error or the stream's end.
pub on_read-Handles :
    (codec : Codec) (w : Watchdog) (now : ℕ) (r : Read)
    → Handles codec w now r (on_read codec w now r)
unfolding on_read
on_read-Handles codec w now (received (text raw)) =
    on_text-Handles codec w now raw (classify codec raw) (classify-Means codec raw)
on_read-Handles codec w now (received ping) = (refl, refl, (λ h. cc, λ h. absurd h))
on_read-Handles codec w now (received close) = (refl, refl, (λ h. tt, λ h. refl))
on_read-Handles codec w now (received other) = (refl, refl, (λ h. cc, λ h. absurd h))
on_read-Handles codec w now failed = (refl, refl, (λ h. tt, λ h. refl))
on_read-Handles codec w now ended = (refl, refl, (λ h. tt, λ h. refl))
