-- ===== src/Orderbook/Shape.antt =====
-- What a book is set up with: the symbol and the number of levels that it shows.
use rust_hft.Common.{ℕ, ◌≡◌, refl, sym, ◌∙◌, Bool, Option, none, some, String, arith}
use rust_hft.Double.{Double}
use rust_hft.BTreeMap.{get-ext}
use rust_hft.Types.{DepthUpdate, DepthSnapshot}
use rust_hft.Orderbook.Defs.{
  Orderbook, SyncState, buffering, live, reset, update_in, handle_update, handle_snapshot, go_live,
  with_snapshot, snapshot, is_first_valid, position, buffered,
}
use rust_hft.Orderbook.Validity.{IsValid}
use rust_hft.Orderbook.Exchange.{Exchange, IsMirror}

module _ {F : Type 0} where
  abbrev pub Shaped : String → ℕ → Orderbook F → Type 0
  Shaped symbol depth b = (b.symbol ≡ symbol) × (b.depth_levels ≡ depth)

module _ {F : Type 0} ⦃d : Double F⦄ (symbol : String) (depth : ℕ) where
  pub handle_update-Shaped :
      (b : Orderbook F) (u : DepthUpdate) (resync : Bool)
      → Shaped symbol depth b
      → Shaped symbol depth (handle_update b u resync).book
  unfolding handle_update update_in reset
  handle_update-Shaped b u resync h = by_state b.state
    where
      by_state : (s : SyncState) → Shaped symbol depth (update_in s b u resync).book
      by_state (buffering buf) = h
      by_state (live n) = ground (arith, h)

  pub handle_snapshot-Shaped :
      (b : Orderbook F) (snap : DepthSnapshot)
      → Shaped symbol depth b
      → Shaped symbol depth (handle_snapshot b snap).0
  unfolding handle_snapshot
  handle_snapshot-Shaped b snap h =
      by_first (position (is_first_valid snap.last_update_id) (buffered b.state))
    where
      by_first :
          (o : Option ℕ)
          → Shaped symbol depth
              (go_live (with_snapshot b snap) snap.last_update_id (buffered b.state) o)
      by_first none = h
      by_first (some i) = h

  -- Two valid books that mirror the exchange at one id show the same.
  pub snapshot_unique :
      (x : Exchange F) (n : ℕ) (b b' : Orderbook F)
      → IsValid b
      → IsValid b'
      → Shaped symbol depth b
      → Shaped symbol depth b'
      → IsMirror x n b.bids b.asks
      → IsMirror x n b'.bids b'.asks
      → (now : ℕ) → snapshot b now ≡ snapshot b' now
  unfolding snapshot
  snapshot_unique x n b b' v v' (e, f) (e', f') m m' now =
      let g =
        get-ext b.bids b'.bids v.bids_side.sorted v'.bids_side.sorted
          (λ k. (m k).0 ∙ sym (m' k).0) in
      let h =
        get-ext b.asks b'.asks v.asks_side.sorted v'.asks_side.sorted
          (λ k. (m k).1 ∙ sym (m' k).1) in
      rw (e, e', f, f', g, h) refl
