-- ===== src/Orderbook/Sequence.antt =====
-- Updates as the exchange sends them, and which of them `handle_snapshot` takes for the first valid one.
use mathlib.Core.Option
use native.Mathlib.Decide.{dec_le}
use rust_hft.Common.{
  ℕ, suc, ◌+◌, ◌^◌, ◌≤◌, ◌<◌, ◌≡◌, refl, ap, ◌∙◌, Bool, true, false, Option-cases, none, some, List,
  [], ◌∷◌, ◌++◌, leb, if◌then◌else◌, inl, inr, arith,
}
use rust_hft.Types.{DepthUpdate}
use rust_hft.Orderbook.Defs.{next_id, is_first_valid, position}
use mathlib.Core.Bool.{true≢false}

-- Updates as the exchange sends them from the id `p` on: each names the last id of the one before, and
-- its own ids come after that one, not always right after it.
abbrev pub IsSequence : ℕ → List DepthUpdate → Type 0
IsSequence p [] = Unit
IsSequence p (u ∷ us) =
    (u.prev_last_update_id ≡ p)
    × (p < u.first_update_id)
    × (p < u.last_update_id)
    × IsSequence u.last_update_id us

abbrev pub last_of : ℕ → List DepthUpdate → ℕ
last_of p [] = p
last_of p (u ∷ us) = last_of u.last_update_id us

-- The first update that ends after the id `s`, if there is one, begins no later than right after it.
abbrev pub meets : ℕ → List DepthUpdate → Bool
meets s [] = true
meets s (u ∷ us) =
    let rest = meets s us in if leb u.last_update_id s then rest else leb u.first_update_id (s + 1)

pub IsSequence-append :
    (us vs : List DepthUpdate) (p : ℕ)
    → IsSequence p (us ++ vs)
    → IsSequence p us × IsSequence (last_of p us) vs
IsSequence-append [] vs p h = (tt, h)
IsSequence-append (u ∷ us) vs p (a, b, c, h) =
    let (k, l) = IsSequence-append us vs u.last_update_id h in ((a, b, c, k), l)

pub is_first_valid_met :
    (s : ℕ) (u : DepthUpdate)
    → s + 1 < 2 ^ 64
    → u.first_update_id ≤ s + 1
    → s < u.last_update_id
    → is_first_valid s u ≡ true
is_first_valid_met s u small begun late =
    let e : next_id s ≡ s + 1 = omega arith in rw e (ground arith)

is_first_valid_beyond :
    (s : ℕ) (u : DepthUpdate)
    → s + 1 < 2 ^ 64
    → s + 1 < u.first_update_id
    → is_first_valid s u ≡ false
is_first_valid_beyond s u small beyond =
    let e : next_id s ≡ s + 1 = omega arith in rw e (ground arith)

pub is_first_valid_stale :
    (s : ℕ) (u : DepthUpdate) → s + 1 < 2 ^ 64 → u.last_update_id ≤ s → is_first_valid s u ≡ false
is_first_valid_stale s u small late = let e : next_id s ≡ s + 1 = omega arith in rw e (ground arith)

pub position_here :
    (p : DepthUpdate → Bool) (u : DepthUpdate) (us : List DepthUpdate)
    → p u ≡ true
    → position p (u ∷ us) ≡ some 0
unfolding position
position_here p u us e = rw e

pub position_later :
    (p : DepthUpdate → Bool) (u : DepthUpdate) (us : List DepthUpdate)
    → p u ≡ false
    → position p (u ∷ us) ≡ Option.map suc (position p us)
unfolding position
position_later p u us e = elim (Option-cases (position p us)) [
  | inl none' ↦ rw (e, none')
  | inr (i, some') ↦ rw (e, some')
]

-- Once the ids have passed the snapshot's, no update is a valid first one.
position_beyond :
    (us : List DepthUpdate) (s q : ℕ)
    → s + 1 < 2 ^ 64
    → s < q
    → IsSequence q us
    → (position (is_first_valid s) us ≡ none) × (s < last_of q us)
unfolding position
position_beyond [] s q small l h = (refl, l)
position_beyond (u ∷ us) s q small l (a, b, c, h) =
    let (e, k) = position_beyond us s u.last_update_id small (omega arith) h in
    (
      position_later (is_first_valid s) u us (is_first_valid_beyond s u small (omega arith))
          ∙ ap (Option.map suc) e,
      k,
    )

pub position_unmet :
    (us : List DepthUpdate) (s p : ℕ)
    → s + 1 < 2 ^ 64
    → p ≤ s
    → IsSequence p us
    → meets s us ≡ false
    → (position (is_first_valid s) us ≡ none) × (s < last_of p us)
position_unmet [] s p small old h n = absurd (true≢false n)
position_unmet (u ∷ us) s p small old (a, b, c, h) n = elim (dec_le u.last_update_id s) [
  | yes late ↦
      let (e, k) = position_unmet us s u.last_update_id small late h (ground arith) in
      (
        position_later (is_first_valid s) u us (is_first_valid_stale s u small late)
            ∙ ap (Option.map suc) e,
        k,
      )
  | no early ↦
      let (e, k) = position_beyond us s u.last_update_id small (omega arith) h in
      let beyond : s + 1 < u.first_update_id = ground arith in
      (
        position_later (is_first_valid s) u us (is_first_valid_beyond s u small beyond)
            ∙ ap (Option.map suc) e,
        k,
      )
]
