-- ===== src/Strategy/Momentum/Ring.antt =====
-- The ring buffer of mid prices against the list of all prices pushed.
use Prim.Native.Nat.{min}
use rust_hft.Common.{
  ℕ, zero, suc, ◌+◌, ◌-◌, ◌%◌, ◌<◌, ◌≡◌, ◌≢◌, refl, ap, ◌∙◌, true, false, Bool-cases, none, some,
  List, [], ◌∷◌, inl, inr, arith, ltb, leb, if◌then◌else◌, length, length-set, get_or, set,
  get_or-set_self, get_or-set_ne,
}
use rust_hft.Double.{Double, zero_f}
use rust_hft.Strategy.Momentum.Defs.{
  MomentumScalpStrategy, price_buf, new, push_price, lookback_price,
}

-- Where the entries stand after a push.
slot_first : (head : ℕ) → head < 64 → ((head + 1) % 64 + 63 - 0) % 64 ≡ head
slot_first head h = omega arith

slot_later :
    (head j : ℕ) → head < 64 → j < 63 → ((head + 1) % 64 + 63 - suc j) % 64 ≡ (head + 63 - j) % 64
slot_later head j h k = omega arith

slot_other : (head j : ℕ) → head < 64 → j < 63 → head ≢ (head + 63 - j) % 64
slot_other head j h k = omega arith

module _ {F : Type 0} ⦃d : Double F⦄ where
  -- The buffer holds the latest prices of the history `h`, which has the newest first.
  pub record IsRing (s : MomentumScalpStrategy F) (h : List F) : Type 0 where
    pub room : length s.prices ≡ price_buf
    pub at : s.head < price_buf
    pub count : s.filled ≡ min price_buf (length h)
    pub holds :
        (i : ℕ) → i < s.filled → get_or s.prices ((s.head + 63 - i) % 64) zero_f ≡ get_or h i zero_f

  -- A push keeps the buffer in step with the history.
  pub push_price-IsRing :
      (s : MomentumScalpStrategy F) (h : List F) (mid : F)
      → IsRing s h
      → IsRing (push_price s mid) (mid ∷ h)
  unfolding push_price
  push_price-IsRing s h mid r = record {
    room = length-set s.prices s.head mid ∙ r.room;
    at = omega arith;
    count = ground (arith, r.count);
    holds = holds;
  }
    where
      holds :
          (i : ℕ)
          → i < (if ltb s.filled 64 then s.filled + 1 else s.filled)
          → get_or (set s.prices s.head mid) (((s.head + 1) % 64 + 63 - i) % 64) zero_f
            ≡ get_or (mid ∷ h) i zero_f
      holds zero l =
          rw (slot_first s.head r.at)
            (get_or-set_self s.prices s.head mid zero_f (omega (arith, r.room, r.at)))
      holds (suc j) l =
          let small : j < 63 = ground (arith, r.count) in
          let old : j < s.filled = ground (arith, r.count) in
          rw (slot_later s.head j r.at small) (
            get_or-set_ne s.prices s.head _ mid zero_f (slot_other s.head j r.at small)
            ∙ r.holds j old)

  -- The buffer after a history of pushes.
  abbrev pub pushed : MomentumScalpStrategy F → List F → MomentumScalpStrategy F
  pushed s [] = s
  pushed s (mid ∷ h) = push_price (pushed s h) mid

  pushed-IsRing : (s : MomentumScalpStrategy F) (h : List F) → IsRing s [] → IsRing (pushed s h) h
  pushed-IsRing s [] r = r
  pushed-IsRing s (mid ∷ h) r = push_price-IsRing (pushed s h) h mid (pushed-IsRing s h r)

  pushed-lookback_ticks :
      (s : MomentumScalpStrategy F) (h : List F) → (pushed s h).lookback_ticks ≡ s.lookback_ticks
  unfolding push_price
  pushed-lookback_ticks s [] = refl
  pushed-lookback_ticks s (mid ∷ h) = pushed-lookback_ticks s h

  lookback_price-IsRing :
      (s : MomentumScalpStrategy F) (h : List F)
      → IsRing s h
      → s.lookback_ticks < price_buf
      → lookback_price s ≡ (
          if leb (length h) s.lookback_ticks then none else some (get_or h s.lookback_ticks zero_f))
  unfolding lookback_price
  lookback_price-IsRing s h r small = elim (Bool-cases (leb (length h) s.lookback_ticks)) [
    | inl e ↦
        let few : leb s.filled s.lookback_ticks ≡ true = ground (arith, r.count) in rw (e, few) refl
    | inr e ↦
        let many : leb s.filled s.lookback_ticks ≡ false = ground (arith, r.count) in
        let inside : s.lookback_ticks < s.filled = ground arith in
        let same : s.head + 64 - 1 - s.lookback_ticks ≡ s.head + 63 - s.lookback_ticks =
          omega arith in
        rw (e, many, same) (ap some (r.holds s.lookback_ticks inside))
  ]

  new-IsRing :
      (q m i t p : F) (lookback hold cool : ℕ) → IsRing (new q lookback m i t p hold cool) []
  unfolding new
  new-IsRing q m i t p lookback hold cool = record {
    room = refl;
    at = omega arith;
    count = refl;
    holds = λ k l. absurd (omega arith);
  }

  new-lookback_ticks :
      (q m i t p : F) (lookback hold cool : ℕ)
      → (new q lookback m i t p hold cool).lookback_ticks ≡ min lookback 63
  unfolding new
  new-lookback_ticks q m i t p lookback hold cool = refl

  -- After any history of pushes into a new strategy, whose lookback is cut to 63, the lookback price is
  -- the price pushed so many pushes before the last one; it is absent until that many came before.
  pub lookback_price-pushed :
      (q m i t p : F) (lookback hold cool : ℕ) (h : List F)
      → let n = min lookback 63 in
        lookback_price (pushed (new q lookback m i t p hold cool) h)
        ≡ (if leb (length h) n then none else some (get_or h n zero_f))
  lookback_price-pushed q m i t p lookback hold cool h =
      let s = new q lookback m i t p hold cool in
      let same : (pushed s h).lookback_ticks ≡ min lookback 63 =
        pushed-lookback_ticks s h ∙ new-lookback_ticks q m i t p lookback hold cool in
      rw same at (
        lookback_price-IsRing (pushed s h) h
          (pushed-IsRing s h (new-IsRing q m i t p lookback hold cool)) (rw same (omega arith)))
