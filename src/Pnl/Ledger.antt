-- ===== src/Pnl/Ledger.antt =====
-- The accounts of `on_sell` in exact arithmetic: the quantity matched, the position and the profit.
use rust_hft.Common.{
  ℕ, zero, suc, ◌+◌, ◌≡◌, refl, ap, ◌∙◌, Bool-cases, some, List, [], ◌∷◌, ◌⊎◌, inl, inr, All,
  length, arith,
}
use rust_hft.Common.Int.{ℤ, pos, ◌+ℤ◌, ◌-ℤ◌, ◌≤ℤ◌, int_laws, parts, eq_of_parts}
use rust_hft.Double.{Double, ◌⊕◌, ◌⊖◌, ◌⊗◌, gt, qty_epsilon}
use rust_hft.Double.Laws.{IsExact}
use rust_hft.Pnl.Defs.{FifoPnl, Matching, put_back, stopped, match_lots, settle, on_sell}
use rust_hft.Pnl.Fifo.{on_sell-settle}

module _ {F : Type 0} ⦃d : Double F⦄ (laws : IsExact F) where
  open laws use {
    val, val_add, val_sub, mul_sub, sub_mul, mul_zero, least_cases, least_left, least_right,
    le_small, lt_small, not_lt_small,
  }

  -- The cost basis and the size of the open position.
  abbrev pub cost : List (F × F) → ℤ
  cost [] = pos 0
  cost ((p, q) ∷ lots) = val (p ⊗ q) +ℤ cost lots

  abbrev pub volume : List (F × F) → ℤ
  volume [] = pos 0
  volume ((p, q) ∷ lots) = val q +ℤ volume lots

  -- No lot is negative.
  abbrev pub HasLots : List (F × F) → Type 0
  HasLots = All (λ l. pos 0 ≤ℤ val l.1)

  -- What a sell of `remaining` at `price` owes to the queue and the realized profit before it.
  record IsSettled (price : F) (queue : List (F × F)) (realized remaining : F) (m : Matching F)
      : Type 0 where
    profit :
        val m.realized +ℤ val (price ⊗ m.remaining) -ℤ cost m.queue
        ≡ val realized +ℤ val (price ⊗ remaining) -ℤ cost queue
    quantity : val m.remaining -ℤ volume m.queue ≡ val remaining -ℤ volume queue
    nonneg : pos 0 ≤ℤ val m.remaining
    less : val m.remaining ≤ℤ val remaining
    lots : HasLots m.queue
    -- It ends when nothing remains to sell or no lot is left.
    spent : (m.queue ≡ []) ⊎ (val m.remaining ≤ℤ pos 0)

  -- One match against the front lot.
  module _ (p x left : F) (rest : List (F × F)) (part : pos 0 ≤ℤ val left)
      (ok_rest : HasLots rest) where
    put_back-cost : cost (put_back p left rest) ≡ val (p ⊗ left) +ℤ cost rest
    put_back-cost = elim (Bool-cases (d.le left qty_epsilon)) [
      | inl e ↦
          let gone : val left ≡ pos 0 = eq_of_parts _ _ (omega (int_laws, le_small left e)) in
          rw e (omega (int_laws, parts (mul_zero p left gone)))
      | inr e ↦ rw e refl
    ]

    put_back-volume : volume (put_back p left rest) ≡ val left +ℤ volume rest
    put_back-volume = elim (Bool-cases (d.le left qty_epsilon)) [
      | inl e ↦ rw e (omega (int_laws, le_small left e))
      | inr e ↦ rw e refl
    ]

    put_back-HasLots : HasLots (put_back p left rest)
    put_back-HasLots = elim (Bool-cases (d.le left qty_epsilon)) [
      | inl e ↦ rw e ok_rest
      | inr e ↦ rw e (part, ok_rest)
    ]

  least_nonneg : (a b : F) → pos 0 ≤ℤ val a → pos 0 ≤ℤ val b → pos 0 ≤ℤ val (d.least a b)
  least_nonneg a b h k = elim (least_cases a b) [ inl e ↦ rw e h | inr e ↦ rw e k ]

  -- A round that sells `part` of the front lot keeps both balances.
  module _ (price p x part realized remaining : F) (rest : List (F × F))
      (some_sold : pos 0 ≤ℤ val part) (of_lot : val part ≤ℤ val x) (ok_rest : HasLots rest) where
    abbrev left_queue : List (F × F)
    left_queue = put_back p (x ⊖ part) rest

    left_nonneg : pos 0 ≤ℤ val (x ⊖ part)
    left_nonneg = omega (int_laws, parts (val_sub x part))

    round-profit :
        val (realized ⊕ (price ⊖ p) ⊗ part) +ℤ val (price ⊗ (remaining ⊖ part)) -ℤ cost left_queue
        ≡ val realized +ℤ val (price ⊗ remaining) -ℤ cost ((p, x) ∷ rest)
    round-profit = omega (
      int_laws,
      parts (put_back-cost p x (x ⊖ part) rest left_nonneg ok_rest),
      parts (val_add realized ((price ⊖ p) ⊗ part)),
      parts (sub_mul price p part),
      parts (mul_sub price remaining part),
      parts (mul_sub p x part),
    )

    round-quantity :
        val (remaining ⊖ part) -ℤ volume left_queue ≡ val remaining -ℤ volume ((p, x) ∷ rest)
    round-quantity = omega (
      int_laws,
      parts (put_back-volume p x (x ⊖ part) rest left_nonneg ok_rest),
      parts (val_sub remaining part),
      parts (val_sub x part),
    )

    round-IsSettled :
        (m : Matching F)
        → IsSettled price left_queue (realized ⊕ (price ⊖ p) ⊗ part) (remaining ⊖ part) m
        → IsSettled price ((p, x) ∷ rest) realized remaining m
    round-IsSettled m h = record {
      profit = h.profit ∙ round-profit;
      quantity = h.quantity ∙ round-quantity;
      nonneg = h.nonneg;
      less = omega (int_laws, h.less, parts (val_sub remaining part));
      lots = h.lots;
      spent = h.spent;
    }

  match_lots-IsSettled :
      (fuel : ℕ) (price : F) (queue : List (F × F)) (realized remaining : F) (m : Matching F)
      → HasLots queue
      → pos 0 ≤ℤ val remaining
      → match_lots fuel price queue realized remaining ≡ some m
      → IsSettled price queue realized remaining m
  unfolding match_lots
  match_lots-IsSettled zero price queue realized remaining m h n e = cc
  match_lots-IsSettled (suc fuel) price [] realized remaining m h n e =
      let same : stopped [] realized remaining ≡ m = ground arith in
      rw (← same) (record {
        profit = refl;
        quantity = refl;
        nonneg = n;
        less = omega arith;
        lots = tt;
        spent = inl refl;
      })
  match_lots-IsSettled (suc fuel) price ((p, x) ∷ rest) realized remaining m h n e =
      elim (Bool-cases (gt remaining qty_epsilon)) [
        | inl g ↦
            let part = d.least remaining x in
            let sold : pos 0 ≤ℤ val part = least_nonneg remaining x n h.0 in
            let ok_left =
              left_nonneg price p x part realized remaining rest sold (least_right remaining x)
                h.1 in
            round-IsSettled price p x part realized remaining rest sold (least_right remaining x)
              h.1 m
              (match_lots-IsSettled fuel price (put_back p (x ⊖ part) rest)
                (realized ⊕ (price ⊖ p) ⊗ part) (remaining ⊖ part) m
                (put_back-HasLots p x (x ⊖ part) rest ok_left h.1)
                (omega (int_laws, parts (val_sub remaining part), least_left remaining x))
                (rw g at e))
        | inr g ↦
            let same : stopped ((p, x) ∷ rest) realized remaining ≡ m = ground arith in
            rw (← same) (record {
              profit = refl;
              quantity = refl;
              nonneg = n;
              less = omega arith;
              lots = h;
              spent = inr (not_lt_small remaining g);
            })
      ]

  pub volume_nonneg : (q : List (F × F)) → HasLots q → pos 0 ≤ℤ volume q
  volume_nonneg [] h = omega arith
  volume_nonneg ((p, x) ∷ q) h = omega (int_laws, h.0, volume_nonneg q h.1)

  -- In exact arithmetic, a sell of a quantity that is not negative, from lots that are not, matches
  -- the smaller of the quantity and the open position; the position loses just what was matched, and
  -- the realized profit gains the proceeds of what was matched less the cost basis that left the
  -- queue. No lot becomes negative.
  pub on_sell_accounts :
      (s : FifoPnl F) (price qty : F) (s' : FifoPnl F) (matched : F)
      → HasLots s.buy_queue
      → pos 0 ≤ℤ val qty
      → on_sell s price qty ≡ some (s', matched)
      → (pos 0 ≤ℤ val matched)
        × (val matched ≤ℤ val qty)
        × (val matched ≤ℤ volume s.buy_queue)
        × ((val matched ≡ val qty) ⊎ (val matched ≡ volume s.buy_queue))
        × (volume s'.buy_queue ≡ volume s.buy_queue -ℤ val matched)
        × (val s'.realized_pnl +ℤ cost s.buy_queue
            ≡ val s.realized_pnl +ℤ val (price ⊗ matched) +ℤ cost s'.buy_queue)
        × HasLots s'.buy_queue
  on_sell_accounts s price qty s' matched h n e =
      let (m, f, g) = on_sell-settle s price qty (s', matched) e in
      let k =
        match_lots-IsSettled (length s.buy_queue + 2) price s.buy_queue s.realized_pnl qty m h n
          f in
      settled m k (ap (λ r. r.0) g) (ap (λ r. r.1) g)
    where
      settled :
          (m : Matching F)
          → IsSettled price s.buy_queue s.realized_pnl qty m
          → s' ≡ (settle s qty m).0
          → matched ≡ qty ⊖ m.remaining
          → (pos 0 ≤ℤ val matched)
            × (val matched ≤ℤ val qty)
            × (val matched ≤ℤ volume s.buy_queue)
            × ((val matched ≡ val qty) ⊎ (val matched ≡ volume s.buy_queue))
            × (volume s'.buy_queue ≡ volume s.buy_queue -ℤ val matched)
            × (val s'.realized_pnl +ℤ cost s.buy_queue
                ≡ val s.realized_pnl +ℤ val (price ⊗ matched) +ℤ cost s'.buy_queue)
            × HasLots s'.buy_queue
      settled m k same_s same_m =
          let sold = parts (val_sub qty m.remaining) in
          let money = parts (mul_sub price qty m.remaining) in
          let profit = parts k.profit in
          let quantity = parts k.quantity in
          let left = volume_nonneg m.queue k.lots in
          let which : (val (qty ⊖ m.remaining) ≡ val qty)
              ⊎ (val (qty ⊖ m.remaining) ≡ volume s.buy_queue) =
            elim k.spent [
              | inl none' ↦ inr (eq_of_parts _ _ (omega (int_laws, parts (ap volume none'))))
              | inr all ↦ inl (eq_of_parts _ _ (omega (int_laws, k.nonneg)))
            ] in
          rw (same_s, same_m)
            (
              omega (int_laws, k.less),
              omega (int_laws, k.nonneg),
              omega int_laws,
              which,
              eq_of_parts _ _ (omega int_laws),
              eq_of_parts _ _ (omega int_laws),
              k.lots,
            )
