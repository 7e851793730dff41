-- ===== src/Pnl/Fifo.antt =====
-- The open lots after a sell, against a sale from the front of a queue.
use rust_hft.Common.{
  ℕ, zero, suc, ◌+◌, ◌≡◌, refl, sym, ap, ◌∙◌, Option-cases, Bool-cases, none, some, List, [], ◌∷◌,
  map, inl, inr, length, arith, if◌then◌else◌,
}
use rust_hft.Common.Int.{ℤ, pos, ◌-ℤ◌, ◌≤ℤ◌, ◌<ℤ◌, ltb_ℤ, leb_ℤ, int_laws, parts, eq_of_parts}
use rust_hft.Double.{Double, ◌⊕◌, ◌⊖◌, ◌⊗◌, gt, qty_epsilon}
use rust_hft.Double.Laws.{IsExact}
use rust_hft.Pnl.Defs.{FifoPnl, Matching, put_back, match_lots, settle, on_sell}

-- A quantity sold from lots of exact quantities, the oldest first: a lot that it covers goes, and the
-- first that it does not cover keeps the rest.
abbrev pub sold_from {ℓ} : {A : Type ℓ} → ℤ → List (A × ℤ) → List (A × ℤ)
sold_from q [] = []
sold_from q ((p, x) ∷ lots) =
    let rest = sold_from (q -ℤ x) lots in
    if leb_ℤ q (pos 0) then (p, x) ∷ lots else if ltb_ℤ q x then (p, x -ℤ q) ∷ lots else rest

module _ {ℓ} {A : Type ℓ} where
  sold_from_none : (q : ℤ) (lots : List (A × ℤ)) → q ≤ℤ pos 0 → sold_from q lots ≡ lots
  sold_from_none q [] h = refl
  sold_from_none q ((p, x) ∷ lots) h = ground arith

  sold_from_part :
      (q x : ℤ) (p : A) (lots : List (A × ℤ))
      → pos 0 <ℤ q
      → q <ℤ x
      → sold_from q ((p, x) ∷ lots) ≡ (p, x -ℤ q) ∷ lots
  sold_from_part q x p lots h l = ground arith

  sold_from_whole :
      (q x : ℤ) (p : A) (lots : List (A × ℤ))
      → pos 0 <ℤ q
      → x ≤ℤ q
      → sold_from q ((p, x) ∷ lots) ≡ sold_from (q -ℤ x) lots
  sold_from_whole q x p lots h l = ground arith

module _ {F : Type 0} ⦃d : Double F⦄ where
  -- A sell that returns is its loop, settled.
  pub on_sell-settle :
      (s : FifoPnl F) (price qty : F) (r : FifoPnl F × F)
      → on_sell s price qty ≡ some r
      → (m : Matching F) × (match_lots (length s.buy_queue + 2) price s.buy_queue s.realized_pnl qty
          ≡ some m)
        × (r ≡ settle s qty m)
  unfolding on_sell
  on_sell-settle s price qty r e =
      elim (Option-cases
        (match_lots (length s.buy_queue + 2) price s.buy_queue s.realized_pnl qty)) [
          | inl f ↦ let e' : none ≡ some r = rw f at e in cc
          | inr (m, f) ↦ let e' : some (settle s qty m) ≡ some r = rw f at e in (m, f, cc)
        ]

  module _ (laws : IsExact F) where
    open laws use {
      val, val_sub, least_cases, least_left, least_right, le_small, not_le_small, lt_small,
      not_lt_small,
    }

    -- The lots with their exact quantities.
    abbrev pub lots_of : List (F × F) → List (F × ℤ)
    lots_of = map (λ l. (l.0, val l.1))

    -- One match against the front lot, by whether it is covered.
    module _ (p x remaining : F) (rest : List (F × F)) (some_left : pos 0 <ℤ val remaining) where
      abbrev matched : F
      matched = d.least remaining x

      matched_part : val remaining <ℤ val x → val matched ≡ val remaining
      matched_part l = elim (least_cases remaining x) [
        | inl e ↦ ap val e
        | inr e ↦
            let clash = parts (ap val e) in
            eq_of_parts _ _ (omega (int_laws, l, clash, least_left remaining x))
      ]

      matched_whole : val x ≤ℤ val remaining → val matched ≡ val x
      matched_whole l = elim (least_cases remaining x) [
        | inl e ↦
            let same = parts (ap val e) in
            eq_of_parts _ _ (omega (int_laws, l, same, least_right remaining x))
        | inr e ↦ ap val e
      ]

      put_back_part :
          val remaining <ℤ val x
          → lots_of (put_back p (x ⊖ matched) rest) ≡ (p, val x -ℤ val remaining) ∷ lots_of rest
      put_back_part l =
          let left : val (x ⊖ matched) ≡ val x -ℤ val remaining =
            val_sub x matched ∙ ap (λ m. val x -ℤ m) (matched_part l) in
          elim (Bool-cases (d.le (x ⊖ matched) qty_epsilon)) [
            | inl e ↦ absurd (omega (int_laws, l, parts left, le_small (x ⊖ matched) e))
            | inr e ↦ rw (e, left) refl
          ]

      put_back_whole :
          val x ≤ℤ val remaining → lots_of (put_back p (x ⊖ matched) rest) ≡ lots_of rest
      put_back_whole l =
          let left = parts (val_sub x matched) in
          let all = parts (matched_whole l) in
          elim (Bool-cases (d.le (x ⊖ matched) qty_epsilon)) [
            | inl e ↦ rw e refl
            | inr e ↦ absurd (omega (int_laws, left, all, not_le_small (x ⊖ matched) e))
          ]

      -- What remains to sell is sold from what the match leaves.
      match-sold_from :
          sold_from (val (remaining ⊖ matched)) (lots_of (put_back p (x ⊖ matched) rest))
          ≡ sold_from (val remaining) ((p, val x) ∷ lots_of rest)
      match-sold_from = elim (Bool-cases (ltb_ℤ (val remaining) (val x))) [
        | inl e ↦
            let l : val remaining <ℤ val x = ground arith in
            let none_left : val (remaining ⊖ matched) ≤ℤ pos 0 =
              omega (int_laws, parts (val_sub remaining matched), parts (matched_part l)) in
            rw (put_back_part l) (
              sold_from_none (val (remaining ⊖ matched)) _ none_left
              ∙ sym (sold_from_part (val remaining) (val x) p (lots_of rest) some_left l))
        | inr e ↦
            let l : val x ≤ℤ val remaining = ground arith in
            let less : val (remaining ⊖ matched) ≡ val remaining -ℤ val x =
              val_sub remaining matched ∙ ap (λ m. val remaining -ℤ m) (matched_whole l) in
            rw (put_back_whole l, less)
              (sym (sold_from_whole (val remaining) (val x) p (lots_of rest) some_left l))
      ]

    match_lots-sold_from :
        (fuel : ℕ) (price : F) (queue : List (F × F)) (realized remaining : F) (m : Matching F)
        → match_lots fuel price queue realized remaining ≡ some m
        → lots_of m.queue ≡ sold_from (val remaining) (lots_of queue)
    unfolding match_lots
    match_lots-sold_from zero price queue realized remaining m e = cc
    match_lots-sold_from (suc fuel) price [] realized remaining m e =
        let same : [] ≡ m.queue = ground arith in rw (← same) refl
    match_lots-sold_from (suc fuel) price ((p, x) ∷ rest) realized remaining m e =
        elim (Bool-cases (gt remaining qty_epsilon)) [
          | inl g ↦
              match_lots-sold_from fuel price (put_back p (x ⊖ d.least remaining x) rest)
                (realized ⊕ (price ⊖ p) ⊗ d.least remaining x) (remaining ⊖ d.least remaining x) m
                (rw g at e)
              ∙ match-sold_from p x remaining rest (lt_small remaining g)
          | inr g ↦
              let same : (p, x) ∷ rest ≡ m.queue = ground arith in
              rw (← same) (
                sym (
                  sold_from_none (val remaining) (lots_of ((p, x) ∷ rest))
                    (not_lt_small remaining g)))
        ]

    -- In exact arithmetic a sell takes its quantity from the open lots first in, first out: each lot,
    -- from the oldest on, that what is left to sell covers goes, the first that it does not cover loses
    -- just that, and the later ones, all prices and their order stay; the notional of the buys is not
    -- touched.
    pub on_sell-sold_from :
        (s : FifoPnl F) (price qty : F) (s' : FifoPnl F) (matched : F)
        → on_sell s price qty ≡ some (s', matched)
        → (lots_of s'.buy_queue ≡ sold_from (val qty) (lots_of s.buy_queue))
          × (s'.buy_notional ≡ s.buy_notional)
    on_sell-sold_from s price qty s' matched e =
        let (m, f, g) = on_sell-settle s price qty (s', matched) e in
        let h =
          match_lots-sold_from (length s.buy_queue + 2) price s.buy_queue s.realized_pnl qty m f in
        let same : s' ≡ (settle s qty m).0 = ap (λ r. r.0) g in rw same (h, refl)
