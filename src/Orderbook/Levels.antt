-- ===== src/Orderbook/Levels.antt =====
-- What a batch of levels does to one side of the book (`apply_levels` and the loops over a snapshot).
use rust_hft.Common.{
  ℕ, ◌≡◌, refl, Option, none, some, List, [], ◌∷◌, foldl, String, ◌==◌, if◌then◌else◌, arith,
}
use rust_hft.Double.{Double, zero_f}
use rust_hft.BTreeMap.{BTreeMap, get, get-insert, get-remove}
use rust_hft.Types.{DepthUpdate}
use rust_hft.Orderbook.Defs.{price_to_key, parse_or_zero, apply_level, apply_levels}

module _ {F : Type 0} ⦃d : Double F⦄ where
  -- The last quantity that a batch quotes for a key, whatever the order of the other levels.
  pub last_quote : ℕ → List (String × String) → Option F
  last_quote k [] = none
  last_quote k ((p, q) ∷ levels) = elim (last_quote k levels) [
    | some later ↦ some later
    | none ↦ if price_to_key (parse_or_zero {F = F} p) == k then some (parse_or_zero q) else none
  ]

  -- What the book holds at a key after a batch: the last quote, unless it is 0, else the old entry.
  abbrev pub after_batch : Option F → Option F → Option F
  after_batch none old = old
  after_batch (some q) old = if d.eq q zero_f then none else some q

  pub get-apply_level :
      (k : ℕ) (m : BTreeMap F) (p q : String)
      → get k (apply_level m (p, q)) ≡ (
          if price_to_key (parse_or_zero {F = F} p) == k
          then after_batch (some (parse_or_zero q)) (get k m)
          else get k m)
  unfolding apply_level
  get-apply_level k m p q = ground (
    arith,
    get-insert (price_to_key (parse_or_zero {F = F} p)) k (parse_or_zero q) m,
    get-remove (price_to_key (parse_or_zero {F = F} p)) k m,
  )

  pub get-apply_level-batch :
      (k : ℕ) (levels : List (String × String)) (m : BTreeMap F)
      → get k (foldl apply_level m levels) ≡ after_batch (last_quote k levels) (get k m)
  unfolding last_quote
  get-apply_level-batch k [] m = refl
  get-apply_level-batch k ((p, q) ∷ levels) m =
      ground (arith, get-apply_level-batch k levels (apply_level m (p, q)), get-apply_level k m p q)

  -- After `apply_levels` each key of either side holds the last quantity that the update quotes for
  -- it, or nothing if that is zero; a key that the update does not quote is as it was.
  pub get-apply_levels :
      (bids asks : BTreeMap F) (u : DepthUpdate) (k : ℕ)
      → (get k (apply_levels bids asks u).0 ≡ after_batch (last_quote k u.bids) (get k bids))
        × (get k (apply_levels bids asks u).1 ≡ after_batch (last_quote k u.asks) (get k asks))
  unfolding apply_levels
  get-apply_levels bids asks u k =
      (get-apply_level-batch k u.bids bids, get-apply_level-batch k u.asks asks)
