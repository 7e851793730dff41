-- ===== src/Pnl/Totality.antt =====
-- The termination of the loop of `on_sell`.
use rust_hft.Common.{
  ℕ, zero, suc, ◌+◌, ◌<◌, ◌≡◌, refl, false, Bool-cases, some, List, [], ◌∷◌, inl, inr, All, length,
  arith,
}
use rust_hft.Double.{Double, ◌⊕◌, ◌⊖◌, ◌⊗◌, gt, qty_epsilon}
use rust_hft.Double.Laws.{IsFinite, IsFloat}
use rust_hft.Pnl.Defs.{FifoPnl, Matching, put_back, stopped, match_lots, settle, on_sell}

module _ {F : Type 0} ⦃d : Double F⦄ where
  -- No lot of the queue is infinite or NaN.
  abbrev pub HasFiniteLots : List (F × F) → Type 0
  HasFiniteLots = All (λ l. IsFinite l.1)

  module _ (laws : IsFloat F) where
    open laws use {least_cases, self_gone, zero_small, rest_finite}

    -- When next to nothing remains, one round is enough.
    match_lots_done :
        (fuel : ℕ) (price : F) (queue : List (F × F)) (realized remaining : F)
        → gt remaining qty_epsilon ≡ false
        → (m : Matching F) × (match_lots (suc fuel) price queue realized remaining ≡ some m)
    unfolding match_lots
    match_lots_done fuel price [] realized remaining h = (_, refl)
    match_lots_done fuel price ((p, q) ∷ rest) realized remaining h =
        (stopped ((p, q) ∷ rest) realized remaining, rw h)

    match_lots_total :
        (queue : List (F × F)) (fuel : ℕ) (price realized remaining : F)
        → HasFiniteLots queue
        → length queue + 1 < fuel
        → (m : Matching F) × (match_lots fuel price queue realized remaining ≡ some m)
    unfolding match_lots
    match_lots_total queue zero price realized remaining h l = absurd (omega arith)
    match_lots_total [] (suc fuel) price realized remaining h l = (_, refl)
    match_lots_total ((p, q) ∷ rest) (suc zero) price realized remaining h l = absurd (omega arith)
    match_lots_total ((p, q) ∷ rest) (suc (suc fuel)) price realized remaining h l =
        elim (Bool-cases (gt remaining qty_epsilon)) [
          | inr e ↦ (stopped ((p, q) ∷ rest) realized remaining, rw e)
          | inl e ↦ elim (least_cases remaining q) [
            | inl a ↦
                let (m, r) =
                  match_lots_done fuel price (put_back p (q ⊖ remaining) rest)
                    (realized ⊕ (price ⊖ p) ⊗ remaining) (remaining ⊖ remaining)
                    (self_gone remaining) in
                (m, rw (e, a) r)
            | inr b ↦
                let gone : put_back p (q ⊖ q) rest ≡ rest = rw (zero_small (q ⊖ q) h.0) in
                let (m, r) =
                  match_lots_total rest (suc fuel) price (realized ⊕ (price ⊖ p) ⊗ q)
                    (remaining ⊖ q) h.1 (omega arith) in
                (m, rw (e, b, gone) r)
          ]
        ]

    put_back-HasFiniteLots :
        (p left : F) (rest : List (F × F))
        → IsFinite left
        → HasFiniteLots rest
        → HasFiniteLots (put_back p left rest)
    put_back-HasFiniteLots p left rest f h = elim (Bool-cases (d.le left qty_epsilon)) [
      | inl e ↦ rw e h
      | inr e ↦ rw e (f, h)
    ]

    match_lots-HasFiniteLots :
        (fuel : ℕ) (price : F) (queue : List (F × F)) (realized remaining : F) (m : Matching F)
        → HasFiniteLots queue
        → match_lots fuel price queue realized remaining ≡ some m
        → HasFiniteLots m.queue
    unfolding match_lots
    match_lots-HasFiniteLots zero price queue realized remaining m h e = cc
    match_lots-HasFiniteLots (suc fuel) price [] realized remaining m h e =
        let same : [] ≡ m.queue = ground arith in rw (← same) tt
    match_lots-HasFiniteLots (suc fuel) price ((p, x) ∷ rest) realized remaining m h e =
        elim (Bool-cases (gt remaining qty_epsilon)) [
          | inl g ↦
              let part = d.least remaining x in
              match_lots-HasFiniteLots fuel price (put_back p (x ⊖ part) rest)
                (realized ⊕ (price ⊖ p) ⊗ part) (remaining ⊖ part) m
                (put_back-HasFiniteLots p (x ⊖ part) rest (rest_finite x remaining h.0 g) h.1)
                (rw g at e)
          | inr g ↦ let same : (p, x) ∷ rest ≡ m.queue = ground arith in rw (← same) h
        ]

    -- `on_sell` always returns, whatever the price and the quantity, if the lots are finite and the
    -- doubles obey `IsFloat`; and then the lots that it leaves are finite.
    pub on_sell_finite :
        (s : FifoPnl F) (price qty : F)
        → HasFiniteLots s.buy_queue
        → (r : FifoPnl F × F) × (on_sell s price qty ≡ some r) × HasFiniteLots r.0.buy_queue
    unfolding on_sell
    on_sell_finite s price qty h =
        let fuel = length s.buy_queue + 2 in
        let (m, e) = match_lots_total s.buy_queue fuel price s.realized_pnl qty h (omega arith) in
        (
          settle s qty m,
          rw e refl,
          match_lots-HasFiniteLots fuel price s.buy_queue s.realized_pnl qty m h e,
        )
