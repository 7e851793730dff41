-- ===== src/Orderbook/Depth.antt =====
-- What `snapshot` shows of the book.
use mathlib.Core.List.{reverse, reverse-cons}
use rust_hft.Common.{
  ℕ, zero, suc, ◌≤◌, ◌<◌, ◌≡◌, refl, ap, ◌∙◌, some, [], ◌∷◌, ◌++◌, map, ◌⊎◌, inl, inr, arith, take,
  length, head?, All, All-imp,
}
use rust_hft.Double.{Double}
use rust_hft.BTreeMap.{BTreeMap, get, IsSorted}
use rust_hft.Orderbook.Defs.{Orderbook, snapshot, to_price}
use rust_hft.Orderbook.Validity.{IsValid}

-- An entry of the map that no other one beats, by the order `above` of the keys.
pub record IsBest {V : Type 0} (below : ℕ → ℕ → Type 0) (m : BTreeMap V) (e : ℕ × V) : Type 0 where
  pub present : get e.0 m ≡ some e.1
  pub best : All (λ x. below x.0 e.0) m

module _ {V : Type 0} where
  -- The first entry of `iter().rev()` has the highest key.
  reverse-IsBest :
      (m : BTreeMap V)
      → IsSorted m
      → (m ≡ []) ⊎ ((e : ℕ × V) × (rest : BTreeMap V) × (reverse m ≡ e ∷ rest) × IsBest ◌≤◌ m e)
  reverse-IsBest [] h = inl refl
  reverse-IsBest ((k, v) ∷ []) h =
      inr ((k, v), [], refl, record { present = ground arith; best = (omega arith, tt) })
  reverse-IsBest ((k, v) ∷ f ∷ m) h = elim (reverse-IsBest (f ∷ m) h.1) [
    | inl e ↦ cc
    | inr (e, rest, r, b) ↦
        let low : k < e.0 = omega (arith, b.best.0, h.0.0) in
        inr (
          e,
          rest ++ ((k, v) ∷ []),
          reverse-cons (k, v) (f ∷ m) ∙ ap (λ l. l ++ ((k, v) ∷ [])) r,
          record { present = ground (arith, b.present); best = (omega arith, b.best) },
        )
  ]

  weaken : (k : ℕ) (m : BTreeMap V) → All (λ e. k < e.0) m → All (λ e. k ≤ e.0) m
  weaken k = All-imp (λ e. k < e.0) (λ e. k ≤ e.0) (λ e h. omega arith)

module _ {F : Type 0} ⦃d : Double F⦄ where
  length-take-map-le : (n : ℕ) (m : BTreeMap F) → length (map to_price (take n m)) ≤ n
  length-take-map-le zero m = omega arith
  length-take-map-le (suc n) [] = omega arith
  length-take-map-le (suc n) (x ∷ m) = omega (arith, length-take-map-le n m)

  first_bid_cases :
      (n : ℕ) (m : BTreeMap F)
      → IsSorted m
      → let shown = map to_price (take (suc n) (reverse m)) in
        ((m ≡ []) × (shown ≡ []))
        ⊎ ((e : ℕ × F) × (head? shown ≡ some (to_price e)) × IsBest ◌≤◌ m e)
  first_bid_cases n m h = elim (reverse-IsBest m h) [
    | inl e ↦ inl (e, rw e refl)
    | inr (e, rest, r, b) ↦ inr (e, rw r refl, b)
  ]

  first_ask_cases :
      (n : ℕ) (m : BTreeMap F)
      → IsSorted m
      → let shown = map to_price (take (suc n) m) in
        ((m ≡ []) × (shown ≡ []))
        ⊎ ((e : ℕ × F) × (head? shown ≡ some (to_price e)) × IsBest (λ x y. y ≤ x) m e)
  first_ask_cases n [] h = inl (refl, refl)
  first_ask_cases n ((k, v) ∷ m) h =
      inr ((k, v), refl, record { present = ground arith; best = (omega arith, weaken k m h.0) })

  -- A snapshot of a valid book whose `depth_levels` is not 0 shows at most `depth_levels` levels a
  -- side. The first bid is the entry with the highest key and the first ask the one with the lowest,
  -- unless the side is empty, and then none is shown.
  pub snapshot-IsBest :
      (b : Orderbook F) (now n : ℕ)
      → IsValid b
      → b.depth_levels ≡ suc n
      → let s = snapshot b now in
        (length s.bids ≤ b.depth_levels)
        × (length s.asks ≤ b.depth_levels)
        × (((b.bids ≡ []) × (s.bids ≡ []))
            ⊎ ((e : ℕ × F) × (head? s.bids ≡ some (to_price e)) × IsBest ◌≤◌ b.bids e))
        × (((b.asks ≡ []) × (s.asks ≡ []))
            ⊎ ((e : ℕ × F) × (head? s.asks ≡ some (to_price e)) × IsBest (λ x y. y ≤ x) b.asks e))
  unfolding snapshot
  snapshot-IsBest b now n v e = (
    length-take-map-le b.depth_levels (reverse b.bids),
    length-take-map-le b.depth_levels b.asks,
    simp e (first_bid_cases n b.bids v.bids_side.sorted),
    simp e (first_ask_cases n b.asks v.asks_side.sorted),
  )
