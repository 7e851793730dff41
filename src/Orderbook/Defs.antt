-- ===== src/Orderbook/Defs.antt =====
-- The data and the methods of src/orderbook.rs.
use mathlib.Core.Option.{get_or}
use mathlib.Core.List.{reverse}
use rust_hft.Common.{
  ℕ, suc, ◌+◌, ◌%◌, ◌^◌, Bool, true, false, not, ◌&&◌, Option, none, some, List, [], ◌∷◌, ◌++◌, map,
  foldl, String, Result, ok, ltb, leb, ◌==◌, if◌then◌else◌, take, drop,
}
use rust_hft.Double.{Double, ◌⊗◌, ◌⊘◌, gt, zero_f}
use rust_hft.BTreeMap.{BTreeMap, insert, remove}
use rust_hft.Types.{DepthUpdate, DepthSnapshot, OrderbookSnapshot}

pub data SyncState : Type 0 where
  buffering : List DepthUpdate → SyncState
  live : ℕ → SyncState

pub record Orderbook (F : Type 0) : Type 0 where
  pub symbol : String
  pub bids : BTreeMap F
  pub asks : BTreeMap F
  pub depth_levels : ℕ
  pub state : SyncState

-- `s + 1` on a `u64`, as a build without overflow checks computes it.
abbrev pub next_id : ℕ → ℕ
next_id s = (s + 1) % 2 ^ 64

-- The test of `position`: U <= S+1 and u >= S+1.
abbrev pub is_first_valid : ℕ → DepthUpdate → Bool
is_first_valid s e = leb e.first_update_id (next_id s) && leb (next_id s) e.last_update_id

unfoldable pub position : (DepthUpdate → Bool) → List DepthUpdate → Option ℕ
position p [] = none
position p (e ∷ es) =
    let rest = position p es in
    if p e then some 0 else elim rest [ none ↦ none | some i ↦ some (suc i) ]

-- The buffer that `handle_snapshot` works on: a live book starts afresh.
abbrev pub buffered : SyncState → List DepthUpdate
buffered (buffering buf) = buf
buffered (live n) = []

module _ {F : Type 0} ⦃d : Double F⦄ where
  -- The scale of a key, 1e8.
  abbrev pub key_scale : F
  key_scale = d.lit 100_000_000 0

  unfoldable pub price_to_key : F → ℕ
  price_to_key price = d.to_u64 (price ⊗ key_scale)

  unfoldable pub new : String → ℕ → Orderbook F
  new symbol depth_levels = record {
    symbol = symbol;
    bids = [];
    asks = [];
    depth_levels = depth_levels;
    state = buffering [];
  }

  unfoldable pub reset : Orderbook F → Orderbook F
  reset b = record b { bids = []; asks = []; state = buffering [] }

  -- `parse().unwrap_or(0.0)`
  abbrev pub parse_or_zero : String → F
  parse_or_zero s = get_or (d.parse s) zero_f

  -- The body of each loop of `apply_levels`.
  unfoldable pub apply_level : BTreeMap F → String × String → BTreeMap F
  apply_level m (p, q) =
      let price = parse_or_zero p in
      let qty = parse_or_zero q in
      let key = price_to_key price in if d.eq qty zero_f then remove key m else insert key qty m

  unfoldable pub apply_levels : BTreeMap F → BTreeMap F → DepthUpdate → BTreeMap F × BTreeMap F
  apply_levels bids asks update =
      (foldl apply_level bids update.bids, foldl apply_level asks update.asks)

  -- The body of each loop over the levels of a snapshot.
  unfoldable pub snapshot_level : BTreeMap F → String × String → BTreeMap F
  snapshot_level m (p, q) =
      let price = parse_or_zero p in
      let qty = parse_or_zero q in if gt qty zero_f then insert (price_to_key price) qty m else m

  -- The loop over the valid events: the flag `first`, `last_id` and the two sides.
  unfoldable pub replay :
      Bool → ℕ → BTreeMap F → BTreeMap F → List DepthUpdate → BTreeMap F × BTreeMap F × ℕ
  replay first last_id bids asks [] = (bids, asks, last_id)
  replay first last_id bids asks (event ∷ events) =
      let sides = apply_levels bids asks event in
      let rest = replay false event.last_update_id sides.0 sides.1 events in
      if not first && not (event.prev_last_update_id == last_id)
      then (bids, asks, last_id)
      else rest

  -- The book's sides as the snapshot gives them.
  abbrev pub with_snapshot : Orderbook F → DepthSnapshot → Orderbook F
  with_snapshot b snapshot = record b {
    bids = foldl snapshot_level [] snapshot.bids;
    asks = foldl snapshot_level [] snapshot.asks;
  }

  -- The rest of `handle_snapshot`, from `valid_events` on.
  abbrev pub go_live : Orderbook F → ℕ → List DepthUpdate → Option ℕ → Orderbook F
  go_live b s buf none = record b { state = live s }
  go_live b s buf (some idx) =
      let (bids, asks, last_id) = replay true s b.bids b.asks (drop idx buf) in
      record b { bids = bids; asks = asks; state = live last_id }

  unfoldable pub handle_snapshot : Orderbook F → DepthSnapshot → Orderbook F × Bool
  handle_snapshot b snapshot =
      let s = snapshot.last_update_id in
      let buf = buffered b.state in
      let first_valid = position (is_first_valid s) buf in
      (go_live (with_snapshot b snapshot) s buf first_valid, true)

  -- The end of `handle_update`: the levels are applied and the book moves to the event's last id.
  abbrev pub advance : Orderbook F → DepthUpdate → Orderbook F
  advance b update =
      let sides = apply_levels b.bids b.asks update in
      record b { bids = sides.0; asks = sides.1; state = live update.last_update_id }

  -- The two arms of `handle_update`. It never returns an error.
  unfoldable pub update_in :
      SyncState
      → Orderbook F
      → DepthUpdate
      → Bool
      → record { book : Orderbook F; resync_needed : Bool; result : Result Bool String }
  update_in (buffering buf) b update resync = record {
    book = record b { state = buffering (buf ++ (update ∷ [])) };
    resync_needed = resync;
    result = ok false;
  }
  update_in (live expected) b update resync =
      if update.prev_last_update_id == expected
      then record { book = advance b update; resync_needed = resync; result = ok true }
      else if leb update.last_update_id expected
      then record { book = b; resync_needed = resync; result = ok false }
      else if ltb update.prev_last_update_id expected && ltb expected update.last_update_id
      then record { book = advance b update; resync_needed = resync; result = ok true }
      else record { book = reset b; resync_needed = true; result = ok false }

  unfoldable pub handle_update :
      Orderbook F
      → DepthUpdate
      → Bool
      → record { book : Orderbook F; resync_needed : Bool; result : Result Bool String }
  unfolding update_in
  handle_update b update resync = update_in b.state b update resync

  -- The method kept for compatibility: its flag is dropped.
  unfoldable pub apply_update :
      Orderbook F → DepthUpdate → record { book : Orderbook F; result : Result Bool String }
  apply_update b update =
      let r = handle_update b update false in record { book = r.book; result = r.result }

  -- A level as the strategies see it.
  abbrev pub to_price : ℕ × F → F × F
  to_price (k, qty) = (d.of_u64 k ⊘ key_scale, qty)

  -- `now` is the clock's reading.
  unfoldable pub snapshot : Orderbook F → ℕ → OrderbookSnapshot F
  snapshot b now = record {
    symbol = b.symbol;
    bids = map to_price (take b.depth_levels (reverse b.bids));
    asks = map to_price (take b.depth_levels b.asks);
    timestamp_ms = now;
  }

abbrev pub is_live_state : SyncState → Bool
is_live_state (live n) = true
is_live_state (buffering buf) = false

unfoldable pub is_live : {F : Type 0} → Orderbook F → Bool
is_live b = is_live_state b.state
