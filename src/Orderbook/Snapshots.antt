-- ===== src/Orderbook/Snapshots.antt =====
-- A snapshot that meets a buffer of updates, against a snapshot that is followed by the same updates.
use mathlib.Core.Option
use native.Mathlib.Decide.{dec_le}
use rust_hft.Common.{
  ℕ, suc, ◌+◌, ◌^◌, ◌≤◌, ◌<◌, ◌≡◌, refl, ap, ◌∙◌, Bool, true, false, Option, none, some, List, [],
  ◌∷◌, ◌++◌, sym, Bool-cases, ◌⊎◌, inl, inr, arith,
}
use rust_hft.Double.{Double}
use rust_hft.BTreeMap.{BTreeMap}
use rust_hft.Types.{DepthUpdate, DepthSnapshot}
use rust_hft.Orderbook.Defs.{
  Orderbook, live, buffering, is_first_valid, position, with_snapshot, go_live, replay,
  handle_snapshot, handle_update, apply_levels, advance,
}
use rust_hft.Orderbook.Sync.{handle_update_live}
use rust_hft.Orderbook.Stream.{feed, feed-nil, feed_applied, feed_stale}
use rust_hft.Orderbook.Sequence.{
  IsSequence, meets, IsSequence-append, is_first_valid_met, is_first_valid_stale, position_here,
  position_later, position_unmet,
}

module _ {F : Type 0} ⦃d : Double F⦄ where
  -- What the loop of `handle_snapshot` makes of a book.
  abbrev replayed : Orderbook F → BTreeMap F × BTreeMap F × ℕ → Orderbook F
  replayed c (bids, asks, last_id) = record c { bids = bids; asks = asks; state = live last_id }

  replay-continue :
      (u : DepthUpdate) (us : List DepthUpdate) (first : Bool) (q : ℕ) (bids asks : BTreeMap F)
      → (first ≡ true) ⊎ (u.prev_last_update_id ≡ q)
      → let sides = apply_levels bids asks u in
        replay first q bids asks (u ∷ us) ≡ replay false u.last_update_id sides.0 sides.1 us
  unfolding replay
  replay-continue u us first q bids asks h = ground arith

  replay-feed :
      (us : List DepthUpdate) (q : ℕ) (c : Orderbook F)
      → c.state ≡ live q
      → IsSequence q us
      → feed c false us ≡ record {
        book = replayed c (replay false q c.bids c.asks us);
        resync_needed = false;
        applied = us;
      }
  unfolding replay
  replay-feed [] q c e k =
      feed-nil c false
      ∙ ap (λ s. record { book = record c { state = s }; resync_needed = false; applied = [] }) e
  replay-feed (u ∷ us) q c e k =
      rw (feed_applied q c u us e (inl k.0), replay-continue u us false q c.bids c.asks (inr k.0))
        (rw (replay-feed us u.last_update_id (advance c u) refl k.3) refl)

  go_live_drop :
      (u : DepthUpdate) (us : List DepthUpdate) (c : Orderbook F) (s : ℕ) (i : Option ℕ)
      → go_live c s (u ∷ us) (Option.map suc i) ≡ go_live c s us i
  go_live_drop u us c s none = refl
  go_live_drop u us c s (some i) = refl

  go_live-feed :
      (us : List DepthUpdate) (s p : ℕ) (c : Orderbook F)
      → s + 1 < 2 ^ 64
      → p ≤ s
      → IsSequence p us
      → meets s us ≡ true
      → go_live c s us (position (is_first_valid s) us)
        ≡ (feed (record c { state = live s }) false us).book
  unfolding position
  go_live-feed [] s p c small old k m = rw feed-nil refl
  go_live-feed (u ∷ us) s p c small old k m = elim (dec_le u.last_update_id s) [
    | yes late ↦
        let skip : position (is_first_valid s) (u ∷ us)
            ≡ Option.map suc (position (is_first_valid s) us) =
          position_later (is_first_valid s) u us (is_first_valid_stale s u small late) in
        rw
          (
            feed_stale s (record c { state = live s }) u us refl (omega arith, late),
            skip,
            go_live_drop u us c s (position (is_first_valid s) us),
          )
          (go_live-feed us s u.last_update_id c small late k.3 (ground arith))
    | no early ↦
        let begun : u.first_update_id ≤ s + 1 = ground arith in
        let here : position (is_first_valid s) (u ∷ us) ≡ some 0 =
          position_here (is_first_valid s) u us
            (is_first_valid_met s u small begun (omega arith)) in
        rw
          (
            here,
            feed_applied s (record c { state = live s }) u us refl (grind arith),
            replay-continue u us true s c.bids c.asks (inl refl),
            replay-feed us u.last_update_id (advance c u) refl k.3,
          )
          refl
  ]

  -- A sequence that begins no later than the book's id asks for no resync.
  feed_calm :
      (us : List DepthUpdate) (s p : ℕ) (c : Orderbook F)
      → c.state ≡ live s
      → p ≤ s
      → IsSequence p us
      → (feed c false us).resync_needed ≡ false
  feed_calm [] s p c e old k = rw feed-nil refl
  feed_calm (u ∷ us) s p c e old k = elim (dec_le u.last_update_id s) [
    | yes late ↦
        rw (feed_stale s c u us e (omega arith, late))
          (feed_calm us s u.last_update_id c e late k.3)
    | no early ↦
        rw (feed_applied s c u us e (grind arith))
          (feed_calm us u.last_update_id u.last_update_id (advance c u) refl (omega arith) k.3)
  ]

  feed_last :
      (us : List DepthUpdate) (c : Orderbook F) (resync : Bool) (next : DepthUpdate)
      → let r = feed c resync us in
        (feed c resync (us ++ (next ∷ []))).resync_needed
        ≡ (handle_update r.book next r.resync_needed).resync_needed
  unfolding feed
  feed_last [] c resync next = refl
  feed_last (u ∷ us) c resync next =
      let r = handle_update c u resync in feed_last us r.book r.resync_needed next

  -- Let a book buffer updates that the exchange sent in sequence, the first of them no later than the
  -- snapshot: each names the last id of the one before, and its own ids come after that one. Then it
  -- asks for no resync to take the snapshot first and the updates one by one; and `handle_snapshot` on
  -- the buffer does one of two things. If the first update that ends after the snapshot begins no later
  -- than right after it, or there is none, it gives that very book, and the next update of the sequence
  -- asks for no resync. Else, when the snapshot's id lies between the ids of two updates, it drops all
  -- the buffered updates, gives the book of the snapshot alone, and the next update asks for a resync.
  -- (The snapshot's id is not the largest `u64`, so that `s + 1` does not overflow.)
  pub handle_snapshot-feed :
      (b : Orderbook F) (snap : DepthSnapshot) (buf : List DepthUpdate) (next : DepthUpdate) (p : ℕ)
      → b.state ≡ buffering buf
      → snap.last_update_id + 1 < 2 ^ 64
      → p ≤ snap.last_update_id
      → IsSequence p (buf ++ (next ∷ []))
      → let start = (handle_snapshot (record b { state = buffering [] }) snap).0 in
        let r = feed start false buf in
        let book = (handle_snapshot b snap).0 in
        (r.resync_needed ≡ false)
        × (((meets snap.last_update_id buf ≡ true)
              × (book ≡ r.book)
              × ((handle_update book next false).resync_needed ≡ false))
            ⊎ ((meets snap.last_update_id buf ≡ false)
                × (book ≡ start)
                × ((handle_update book next false).resync_needed ≡ true)))
  unfolding handle_snapshot position
  handle_snapshot-feed b snap buf next p e small old k =
      let s = snap.last_update_id in
      let c = with_snapshot b snap in
      let start = record c { state = live s } in
      let (before, (a, f, g, _)) = IsSequence-append buf (next ∷ []) p k in
      let calm = feed_calm buf s p start refl old before in
      let book_is : (handle_snapshot b snap).0 ≡ go_live c s buf (position (is_first_valid s) buf) =
        rw e refl in
      (
        calm,
        elim (Bool-cases (meets s buf)) [
          | inl m ↦
              let same = book_is ∙ go_live-feed buf s p c small old before m in
              let onward =
                sym (feed_last buf start false next)
                ∙ feed_calm (buf ++ (next ∷ [])) s p start refl old k in
              inl (m, same, rw same (rw calm at onward))
          | inr m ↦
              let (none', beyond) = position_unmet buf s p small old before m in
              let same : (handle_snapshot b snap).0 ≡ start =
                book_is ∙ ap (go_live c s buf) none' in
              inr (
                m,
                same,
                rw same
                    (((handle_update_live s start next false refl).2 (omega arith, omega arith)).2),
              )
        ],
      )
