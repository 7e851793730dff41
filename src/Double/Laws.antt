-- ===== src/Double/Laws.antt =====
-- What theorems assume of `f64`. `IsFloat` holds of IEEE 754 doubles as they are. `IsExact` is the
-- arithmetic without rounding that the accounting identities speak of: doubles have it as long as all
-- values are whole multiples of a common unit (1e-10 lies below it) and stay below 2⁵³ units.
use rust_hft.Common.{◌≡◌, true, false, ◌⊎◌}
use rust_hft.Common.Int.{ℤ, pos, ◌+ℤ◌, ◌-ℤ◌, ◌≤ℤ◌, ◌<ℤ◌}
use rust_hft.Double.{Double, ◌⊕◌, ◌⊖◌, ◌⊗◌, zero_f, qty_epsilon}

module _ {F : Type 0} ⦃d : Double F⦄ where
  -- Infinities and NaN are the values whose difference with themselves is not 0.
  abbrev pub IsFinite : F → Type 0
  IsFinite x = d.eq (x ⊖ x) zero_f ≡ true

pub record IsFloat (F : Type 0) ⦃d : Double F⦄ : Type 0 where
  pub least_cases : (a b : F) → (d.least a b ≡ a) ⊎ (d.least a b ≡ b)
  -- x - x is 0 or NaN
  pub self_gone : (x : F) → d.lt qty_epsilon (x ⊖ x) ≡ false
  pub zero_small : (x : F) → d.eq x zero_f ≡ true → d.le x qty_epsilon ≡ true
  -- what a positive amount leaves of a finite one
  pub rest_finite : (a r : F) → IsFinite a → d.lt qty_epsilon r ≡ true → IsFinite (a ⊖ d.least r a)
  pub pos_ne_zero : (x : F) → d.lt zero_f x ≡ true → d.eq x zero_f ≡ false

pub record IsExact (F : Type 0) ⦃d : Double F⦄ : Type 0 where
  -- the value, in units
  pub val : F → ℤ
  pub val_zero : val zero_f ≡ pos 0
  pub val_start : val d.sum_start ≡ pos 0
  pub val_add : (a b : F) → val (a ⊕ b) ≡ val a +ℤ val b
  pub val_sub : (a b : F) → val (a ⊖ b) ≡ val a -ℤ val b
  pub mul_sub : (a b c : F) → val (a ⊗ (b ⊖ c)) ≡ val (a ⊗ b) -ℤ val (a ⊗ c)
  pub sub_mul : (a b c : F) → val ((a ⊖ b) ⊗ c) ≡ val (a ⊗ c) -ℤ val (b ⊗ c)
  pub mul_zero : (a b : F) → val b ≡ pos 0 → val (a ⊗ b) ≡ pos 0
  pub least_cases : (a b : F) → (d.least a b ≡ a) ⊎ (d.least a b ≡ b)
  pub least_left : (a b : F) → val (d.least a b) ≤ℤ val a
  pub least_right : (a b : F) → val (d.least a b) ≤ℤ val b
  -- no value lies between 0 and 1e-10
  pub le_small : (x : F) → d.le x qty_epsilon ≡ true → val x ≤ℤ pos 0
  pub not_le_small : (x : F) → d.le x qty_epsilon ≡ false → pos 0 <ℤ val x
  pub lt_small : (x : F) → d.lt qty_epsilon x ≡ true → pos 0 <ℤ val x
  pub not_lt : (x y : F) → d.lt x y ≡ false → val y ≤ℤ val x
  pub not_le_zero : (x : F) → d.le x zero_f ≡ false → pos 0 <ℤ val x
  pub not_lt_small : (x : F) → d.lt qty_epsilon x ≡ false → val x ≤ℤ pos 0
