-- ===== src/BTreeMap.antt =====
-- The standard library's `BTreeMap<u64, V>` as far as src/orderbook.rs uses it: the entries in the
-- order of their keys, which is the order of `iter()`.
use rust_hft.Common.{
  ℕ, ◌<◌, ◌≡◌, Option, none, some, List, [], ◌∷◌, ltb, ◌==◌, if◌then◌else◌, All, arith, refl, sym,
  ◌∙◌, ◌⊎◌, inl, inr,
}

abbrev pub BTreeMap : Type 0 → Type 0
BTreeMap V = List (ℕ × V)

apart_or_same : (i j : ℕ) → (i < j) ⊎ (j < i) ⊎ (i ≡ j)
apart_or_same i j = ground arith

dec_eq : (i k : ℕ) → (i ≡ k) ⊎ (¬ (i ≡ k))
dec_eq i k = ground arith

module _ {V : Type 0} where
  abbrev pub get : ℕ → BTreeMap V → Option V
  get k [] = none
  get k ((j, w) ∷ m) = if j == k then some w else get k m

  unfoldable pub insert : ℕ → V → BTreeMap V → BTreeMap V
  insert k v [] = (k, v) ∷ []
  insert k v ((j, w) ∷ m) =
      if ltb k j then (k, v) ∷ (j, w) ∷ m else if j == k then (k, v) ∷ m else (j, w) ∷ insert k v m

  unfoldable pub remove : ℕ → BTreeMap V → BTreeMap V
  remove k [] = []
  remove k ((j, w) ∷ m) = let rest = remove k m in if j == k then rest else (j, w) ∷ rest

  -- The keys rise.
  abbrev pub IsSorted : BTreeMap V → Type 0
  IsSorted [] = Unit
  IsSorted ((k, v) ∷ m) = All (λ e. k < e.0) m × IsSorted m

  pub get-insert :
      (k j : ℕ) (v : V) (m : BTreeMap V)
      → get j (insert k v m) ≡ (if k == j then some v else get j m)
  unfolding insert
  get-insert k j v [] = ground arith
  get-insert k j v ((i, w) ∷ m) = ground (arith, get-insert k j v m)

  pub get-remove :
      (k j : ℕ) (m : BTreeMap V) → get j (remove k m) ≡ (if k == j then none else get j m)
  unfolding remove
  get-remove k j [] = ground arith
  get-remove k j ((i, w) ∷ m) = ground (arith, get-remove k j m)

  pub All-insert {κ} :
      (P : ℕ × V → Type κ) (k : ℕ) (v : V) (m : BTreeMap V)
      → P (k, v)
      → All P m
      → All P (insert k v m)
  unfolding insert
  All-insert P k v [] p h = (p, tt)
  All-insert P k v ((j, w) ∷ m) p h = ground (arith, All-insert P k v m p)

  pub All-remove {κ} : (P : ℕ × V → Type κ) (k : ℕ) (m : BTreeMap V) → All P m → All P (remove k m)
  unfolding remove
  All-remove P k [] h = tt
  All-remove P k ((j, w) ∷ m) h = ground (arith, All-remove P k m)

  pub All-raise : (k j : ℕ) (m : BTreeMap V) → k < j → All (λ e. j < e.0) m → All (λ e. k < e.0) m
  All-raise k j [] l h = tt
  All-raise k j ((i, w) ∷ m) l h = (omega arith, All-raise k j m l h.1)

  pub insert-IsSorted : (k : ℕ) (v : V) (m : BTreeMap V) → IsSorted m → IsSorted (insert k v m)
  unfolding insert
  insert-IsSorted k v [] h = (tt, tt)
  insert-IsSorted k v ((j, w) ∷ m) h =
      ground (arith, insert-IsSorted k v m, All-raise k j m, All-insert (λ e. j < e.0) k v m)

  pub remove-IsSorted : (k : ℕ) (m : BTreeMap V) → IsSorted m → IsSorted (remove k m)
  unfolding remove
  remove-IsSorted k [] h = tt
  remove-IsSorted k ((j, w) ∷ m) h =
      ground (arith, remove-IsSorted k m, All-remove (λ e. j < e.0) k m)

  get_below : (k : ℕ) (m : BTreeMap V) → All (λ e. k < e.0) m → get k m ≡ none
  get_below k [] h = refl
  get_below k ((j, w) ∷ m) h = ground (arith, get_below k m)

  get_first : (k : ℕ) (v : V) (m : BTreeMap V) → get k ((k, v) ∷ m) ≡ some v
  get_first k v m = ground arith

  get_rest : (k j : ℕ) (v : V) (m : BTreeMap V) → ¬ (k ≡ j) → get j ((k, v) ∷ m) ≡ get j m
  get_rest k j v m n = ground arith

  first_below :
      (i j : ℕ) (v : V) (m m' : BTreeMap V)
      → i < j
      → All (λ e. j < e.0) m'
      → (w : V) → ¬ (get i ((i, v) ∷ m) ≡ get i ((j, w) ∷ m'))
  first_below i j v m m' l h w e =
      let a = get_first i v m in
      let b = get_below i ((j, w) ∷ m') (l, All-raise i j m' l h) in
      let clash : some v ≡ none = sym a ∙ e ∙ b in cc

  -- Sorted maps with the same entries are the same.
  pub get-ext :
      (m m' : BTreeMap V) → IsSorted m → IsSorted m' → ((k : ℕ) → get k m ≡ get k m') → m ≡ m'
  get-ext [] [] s s' e = refl
  get-ext [] ((j, w) ∷ m') s s' e = let clash : none ≡ some w = e j ∙ get_first j w m' in cc
  get-ext ((i, v) ∷ m) [] s s' e = let clash : some v ≡ none = sym (get_first i v m) ∙ e i in cc
  get-ext ((i, v) ∷ m) ((j, w) ∷ m') s s' e = elim (apart_or_same i j) [
    | inl l ↦ absurd (first_below i j v m m' l s'.0 w (e i))
    | inr (inl l) ↦ absurd (first_below j i w m' m l s.0 v (sym (e j)))
    | inr (inr at) ↦
        let at' : j ≡ i = sym at in
        let first : some v ≡ some w = sym (get_first i v m) ∙ e i ∙ rw at' (get_first i w m') in
        let same : v ≡ w = cc in let rest = get-ext m m' s.1 s'.1 (by_rest at' (dec_eq i)) in cc
  ]
    where
      by_rest : j ≡ i → ((k : ℕ) → (i ≡ k) ⊎ (¬ (i ≡ k))) → (k : ℕ) → get k m ≡ get k m'
      by_rest at' by k = elim (by k) [
        | inl h ↦ rw (sym h) (get_below i m s.0 ∙ sym (get_below i m' (rw at' at s'.0)))
        | inr h ↦ sym (get_rest i k v m h) ∙ e k ∙ get_rest j k w m' (λ f. h (sym at' ∙ f))
      ]
