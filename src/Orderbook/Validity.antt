-- ===== src/Orderbook/Validity.antt =====
-- The well-formedness of the book under its methods.
use rust_hft.Common.{
  ℕ, ◌≡◌, Bool, true, false, Bool-cases, Option, none, some, List, [], ◌∷◌, foldl, inl, inr, String,
  All, arith,
}
use rust_hft.Double.{Double, gt, zero_f}
use rust_hft.BTreeMap.{
  BTreeMap, IsSorted, insert, remove, All-insert, All-remove, insert-IsSorted, remove-IsSorted,
}
use rust_hft.Types.{DepthUpdate, DepthSnapshot}
use rust_hft.Orderbook.Defs.{
  Orderbook, SyncState, buffering, live, reset, parse_or_zero, apply_level, apply_levels,
  snapshot_level, replay, go_live, with_snapshot, handle_snapshot, update_in, handle_update,
  advance,
}

module _ {F : Type 0} ⦃d : Double F⦄ where
  -- An entry's quantity is not zero.
  abbrev pub IsQuoted : ℕ × F → Type 0
  IsQuoted e = d.eq e.1 zero_f ≡ false

  -- A side has its keys in order, each once, and no level with quantity zero.
  pub record IsSide (m : BTreeMap F) : Type 0 where
    pub sorted : IsSorted m
    pub quoted : All IsQuoted m

  pub record IsValid (b : Orderbook F) : Type 0 where
    pub bids_side : IsSide b.bids
    pub asks_side : IsSide b.asks

  pub []-IsSide : IsSide []
  []-IsSide = record { sorted = tt; quoted = tt }

  insert-IsSide :
      (k : ℕ) (q : F) (m : BTreeMap F) → d.eq q zero_f ≡ false → IsSide m → IsSide (insert k q m)
  insert-IsSide k q m e h = record {
    sorted = insert-IsSorted k q m h.sorted;
    quoted = All-insert IsQuoted k q m e h.quoted;
  }

  remove-IsSide : (k : ℕ) (m : BTreeMap F) → IsSide m → IsSide (remove k m)
  remove-IsSide k m h = record {
    sorted = remove-IsSorted k m h.sorted;
    quoted = All-remove IsQuoted k m h.quoted;
  }

  apply_level-IsSide : (m : BTreeMap F) (l : String × String) → IsSide m → IsSide (apply_level m l)
  unfolding apply_level
  apply_level-IsSide m (p, q) h = elim (Bool-cases (d.eq (parse_or_zero {F = F} q) zero_f)) [
    | inl e ↦ rw e (remove-IsSide _ m h)
    | inr e ↦ rw e (insert-IsSide _ _ m e h)
  ]

  foldl-IsSide :
      (f : BTreeMap F → String × String → BTreeMap F)
      → ((m : BTreeMap F) (l : String × String) → IsSide m → IsSide (f m l))
      → (ls : List (String × String)) (m : BTreeMap F) → IsSide m
      → IsSide (foldl f m ls)
  foldl-IsSide f keep [] m h = h
  foldl-IsSide f keep (l ∷ ls) m h = foldl-IsSide f keep ls (f m l) (keep m l h)

  apply_levels-IsSide :
      (bids asks : BTreeMap F) (u : DepthUpdate)
      → IsSide bids
      → IsSide asks
      → IsSide (apply_levels bids asks u).0 × IsSide (apply_levels bids asks u).1
  unfolding apply_levels
  apply_levels-IsSide bids asks u h k = (
    foldl-IsSide apply_level apply_level-IsSide u.bids bids h,
    foldl-IsSide apply_level apply_level-IsSide u.asks asks k,
  )

  replay-IsSide :
      (first : Bool) (last : ℕ) (bids asks : BTreeMap F) (es : List DepthUpdate)
      → IsSide bids
      → IsSide asks
      → IsSide (replay first last bids asks es).0 × IsSide (replay first last bids asks es).1
  unfolding replay
  replay-IsSide first last bids asks [] h k = (h, k)
  replay-IsSide first last bids asks (e ∷ es) h k =
      let sides = apply_levels bids asks e in
      let (h', k') = apply_levels-IsSide bids asks e h k in
      ground (arith, replay-IsSide false e.last_update_id sides.0 sides.1 es h' k')

  pub reset-IsValid : (b : Orderbook F) → IsValid (reset b)
  unfolding reset
  reset-IsValid b = record { bids_side = []-IsSide; asks_side = []-IsSide }

  advance-IsValid : (b : Orderbook F) (u : DepthUpdate) → IsValid b → IsValid (advance b u)
  advance-IsValid b u h =
      let (x, y) = apply_levels-IsSide b.bids b.asks u h.bids_side h.asks_side in
      record { bids_side = x; asks_side = y }

  update_in-IsValid :
      (s : SyncState) (b : Orderbook F) (u : DepthUpdate) (resync : Bool)
      → IsValid b
      → IsValid (update_in s b u resync).book
  unfolding update_in
  update_in-IsValid (buffering buf) b u resync h = record {
    bids_side = h.bids_side;
    asks_side = h.asks_side;
  }
  update_in-IsValid (live n) b u resync h = ground (arith, advance-IsValid b u h, reset-IsValid b)

  -- `handle_update` keeps a valid book valid, on every branch: its sides stay sorted by key and quote
  -- no quantity equal to zero.
  pub handle_update-IsValid :
      (b : Orderbook F) (u : DepthUpdate) (resync : Bool)
      → IsValid b
      → IsValid (handle_update b u resync).book
  unfolding handle_update
  handle_update-IsValid b u resync h = update_in-IsValid b.state b u resync h

  -- A positive double is not equal to zero.
  module _ (positive : (q : F) → gt q zero_f ≡ true → d.eq q zero_f ≡ false) where
    snapshot_level-IsSide :
        (m : BTreeMap F) (l : String × String) → IsSide m → IsSide (snapshot_level m l)
    unfolding snapshot_level
    snapshot_level-IsSide m (p, q) h = elim (Bool-cases (gt (parse_or_zero {F = F} q) zero_f)) [
      | inl e ↦ rw e (insert-IsSide _ _ m (positive (parse_or_zero q) e) h)
      | inr e ↦ rw e h
    ]

    go_live-IsValid :
        (b : Orderbook F) (s : ℕ) (buf : List DepthUpdate) (i : Option ℕ)
        → IsValid b
        → IsValid (go_live b s buf i)
    go_live-IsValid b s buf none h = record { bids_side = h.bids_side; asks_side = h.asks_side }
    go_live-IsValid b s buf (some i) h =
        let (x, y) = replay-IsSide true s b.bids b.asks _ h.bids_side h.asks_side in
        record { bids_side = x; asks_side = y }

    -- Whatever the book was, after `handle_snapshot` it is valid: its sides are sorted by key and
    -- quote no quantity equal to zero. (Of the doubles it is assumed that a positive one is not equal
    -- to zero.)
    pub handle_snapshot-IsValid :
        (b : Orderbook F) (snap : DepthSnapshot) → IsValid (handle_snapshot b snap).0
    unfolding handle_snapshot
    handle_snapshot-IsValid b snap =
        let sides = foldl-IsSide snapshot_level snapshot_level-IsSide in
        go_live-IsValid (with_snapshot b snap) _ _ _ (record {
          bids_side = sides snap.bids [] []-IsSide;
          asks_side = sides snap.asks [] []-IsSide;
        })
