-- ===== src/Double.antt =====
-- The type `f64` and what the program does with it. The language has no floats, so the type is any
-- type with these operations; a literal m × 10⁻ᵉ is `lit m e`.
pub mod Laws
pub mod Fixed
use rust_hft.Common.{ℕ, Bool, Option, List, foldl, String}

pub record Double (F : Type 0) : Type 0 where
  pub lit : ℕ → ℕ → F
  pub add : F → F → F
  pub sub : F → F → F
  pub mul : F → F → F
  pub div : F → F → F
  -- `f64::min`, `abs`, `floor`
  pub least : F → F → F
  pub abs : F → F
  pub floor : F → F
  -- the operators <, <= and ==, all false on NaN (save that == is false)
  pub lt : F → F → Bool
  pub le : F → F → Bool
  pub eq : F → F → Bool
  -- `x as u64` (saturating), `n as f64` and `str::parse::<f64>()`
  pub to_u64 : F → ℕ
  pub of_u64 : ℕ → F
  pub parse : String → Option F
  -- where `Iterator::sum` starts: 0.0 or -0.0, by the version of the standard library
  pub sum_start : F

module _ {F : Type 0} ⦃d : Double F⦄ where
  infixl 65 ◌⊕◌ ◌⊖◌
  infixl 70 ◌⊗◌ ◌⊘◌
  abbrev pub ◌⊕◌ : F → F → F
  a ⊕ b = d.add a b

  abbrev pub ◌⊖◌ : F → F → F
  a ⊖ b = d.sub a b

  abbrev pub ◌⊗◌ : F → F → F
  a ⊗ b = d.mul a b

  abbrev pub ◌⊘◌ : F → F → F
  a ⊘ b = d.div a b

  -- a > b and a >= b
  abbrev pub gt : F → F → Bool
  gt a b = d.lt b a

  abbrev pub ge : F → F → Bool
  ge a b = d.le b a

  abbrev pub zero_f : F
  zero_f = d.lit 0 0

  abbrev pub hundred : F
  hundred = d.lit 100 0

  -- `1e-10`, src/pnl.rs's `QTY_EPSILON`
  abbrev pub qty_epsilon : F
  qty_epsilon = d.lit 1 10

  -- `iter().sum()`
  abbrev pub sum : List F → F
  sum xs = foldl d.add d.sum_start xs
