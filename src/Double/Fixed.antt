-- ===== src/Double/Fixed.antt =====
-- Concrete numbers for tests: fixed-point decimals with `k` units to 1, and whole numbers.
use Prim.Native.Nat.{min}
use Prim.Native.Char.{code}
use rust_hft.Common.{
  ◌≡◌, ◌⊎◌, false, ℕ, ◌+◌, ◌-◌, ◌*◌, ◌/◌, ◌^◌, refl, Bool, true, ◌&&◌, Option, none, some, List, [],
  ◌∷◌, String, leb, ◌==◌, if◌then◌else◌, arith,
}
use rust_hft.Common.Int.{
  ◌≤ℤ◌, ◌<ℤ◌, ℤ, pos, negsuc, pos_part, neg_part, sub_ℕ, ◌+ℤ◌, ◌-ℤ◌, ◌*ℤ◌, ltb_ℤ, leb_ℤ, *ℤ-sub,
  sub-*ℤ, *ℤ-zero,
}
use rust_hft.Double.{Double}
use rust_hft.Double.Laws.{IsFloat, IsExact}

abbrev codes : String → List ℕ
codes String.[] = []
codes (String.◌∷◌ c s) = code c ∷ codes s

-- The digits read so far, the number of them behind the point, and whether the point was read.
abbrev parse_from : ℕ → ℕ → Bool → List ℕ → Option (ℕ × ℕ)
parse_from n places dot [] = some (n, places)
parse_from n places dot (c ∷ cs) =
    if leb b'0' c && leb c b'9'
    then parse_from (n * 10 + (c - b'0')) (if dot then places + 1 else places) dot cs
    else if c == b'.'
    then parse_from n places true cs
    else none

abbrev parse_fixed : ℕ → String → Option ℤ
parse_fixed k s = elim (parse_from 0 0 false (codes s)) [
  | none ↦ none
  | some (n, places) ↦ some (pos (n * k / 10 ^ places))
]

-- The magnitude divided, towards zero.
abbrev shrink : ℤ → ℕ → ℤ
shrink a k = sub_ℕ (pos_part a / k) (neg_part a / k)

abbrev div_fixed : ℕ → ℤ → ℤ → ℤ
div_fixed k a (pos n) = shrink (a *ℤ pos k) n
div_fixed k a (negsuc n) = shrink (pos 0 -ℤ a *ℤ pos k) (n + 1)

abbrev floor_fixed : ℕ → ℤ → ℤ
floor_fixed k (pos n) = pos (n / k * k)
floor_fixed k (negsuc n) = sub_ℕ 0 ((n + k) / k * k)

abbrev eq_ℤ : ℤ → ℤ → Bool
eq_ℤ a b = leb_ℤ a b && leb_ℤ b a

abbrev least_ℤ : ℤ → ℤ → ℤ
least_ℤ a b = if leb_ℤ a b then a else b

unfoldable pub fixed : ℕ → Double ℤ
unfolding ◌+ℤ◌ ◌-ℤ◌ ◌*ℤ◌
fixed k = record {
  lit = λ m e. pos (m * k / 10 ^ e);
  add = ◌+ℤ◌;
  sub = ◌-ℤ◌;
  mul = λ a b. shrink (a *ℤ b) k;
  div = div_fixed k;
  least = least_ℤ;
  abs = λ a. pos (pos_part a + neg_part a);
  floor = floor_fixed k;
  lt = ltb_ℤ;
  le = leb_ℤ;
  eq = eq_ℤ;
  to_u64 = λ a. min (pos_part a / k) (2 ^ 64 - 1);
  of_u64 = λ n. pos (n * k);
  parse = parse_fixed k;
  sum_start = pos 0;
}

-- Ten decimals, so that `QTY_EPSILON` is one unit.
abbrev pub decimal : Double ℤ
decimal = fixed (10 ^ 10)

abbrev pub whole : Double ℤ
whole = record (fixed 1) { mul = ◌*ℤ◌ }

pub whole-IsFloat : IsFloat ℤ ⦃d = whole⦄
unfolding fixed
whole-IsFloat = record {
  least_cases = λ a b. ground arith;
  self_gone = λ x. ground arith;
  zero_small = λ x h. ground arith;
  rest_finite = λ a r f h. ground arith;
  pos_ne_zero = λ x h. ground arith;
}

pub decimal-IsFloat : IsFloat ℤ ⦃d = decimal⦄
unfolding fixed
decimal-IsFloat = record {
  least_cases = λ a b. ground arith;
  self_gone = λ x. ground arith;
  zero_small = λ x h. ground arith;
  rest_finite = λ a r f h. ground arith;
  pos_ne_zero = λ x h. ground arith;
}

pub least_ℤ_cases : (a b : ℤ) → (least_ℤ a b ≡ a) ⊎ (least_ℤ a b ≡ b)
least_ℤ_cases a b = ground arith

pub least_ℤ_left : (a b : ℤ) → least_ℤ a b ≤ℤ a
least_ℤ_left a b = ground arith

pub least_ℤ_right : (a b : ℤ) → least_ℤ a b ≤ℤ b
least_ℤ_right a b = ground arith

pub le_of_leb_ℤ : (a b : ℤ) → leb_ℤ a b ≡ true → a ≤ℤ b
le_of_leb_ℤ a b h = ground arith

pub lt_of_leb_ℤ : (a b : ℤ) → leb_ℤ a b ≡ false → b <ℤ a
lt_of_leb_ℤ a b h = ground arith

pub lt_of_ltb_ℤ : (a b : ℤ) → ltb_ℤ a b ≡ true → a <ℤ b
lt_of_ltb_ℤ a b h = ground arith

pub le_of_ltb_ℤ : (a b : ℤ) → ltb_ℤ a b ≡ false → b ≤ℤ a
le_of_ltb_ℤ a b h = ground arith

-- Whole numbers meet the laws of exact arithmetic.
unfoldable pub whole-IsExact : IsExact ℤ ⦃d = whole⦄
unfolding fixed
whole-IsExact = record {
  val = λ a. a;
  val_zero = refl;
  val_start = refl;
  val_add = λ a b. refl;
  val_sub = λ a b. refl;
  mul_sub = *ℤ-sub;
  sub_mul = sub-*ℤ;
  mul_zero = λ a b e. rw e (*ℤ-zero a);
  least_cases = least_ℤ_cases;
  least_left = least_ℤ_left;
  least_right = least_ℤ_right;
  le_small = λ x. le_of_leb_ℤ x (pos 0);
  not_le_small = λ x. lt_of_leb_ℤ x (pos 0);
  not_lt = le_of_ltb_ℤ;
  not_le_zero = λ x. lt_of_leb_ℤ x (pos 0);
  lt_small = λ x. lt_of_ltb_ℤ (pos 0) x;
  not_lt_small = λ x. le_of_ltb_ℤ (pos 0) x;
}

-- Thousandths; a product counts in units of its own.
abbrev pub thousandths : Double ℤ
thousandths = record (fixed 1000) { mul = ◌*ℤ◌ }

-- They meet the laws of exact arithmetic too.
unfoldable pub thousandths-IsExact : IsExact ℤ ⦃d = thousandths⦄
unfolding fixed
thousandths-IsExact = record {
  val = λ a. a;
  val_zero = refl;
  val_start = refl;
  val_add = λ a b. refl;
  val_sub = λ a b. refl;
  mul_sub = *ℤ-sub;
  sub_mul = sub-*ℤ;
  mul_zero = λ a b e. rw e (*ℤ-zero a);
  least_cases = least_ℤ_cases;
  least_left = least_ℤ_left;
  least_right = least_ℤ_right;
  le_small = λ x. le_of_leb_ℤ x (pos 0);
  not_le_small = λ x. lt_of_leb_ℤ x (pos 0);
  not_lt = le_of_ltb_ℤ;
  not_le_zero = λ x. lt_of_leb_ℤ x (pos 0);
  lt_small = λ x. lt_of_ltb_ℤ (pos 0) x;
  not_lt_small = λ x. le_of_ltb_ℤ (pos 0) x;
}
