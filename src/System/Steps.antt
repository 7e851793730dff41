-- ===== src/System/Steps.antt =====
-- What holds after a step, along a schedule and at its end.
use mathlib.Core.Option
use rust_hft.Common.{
  ℕ, zero, suc, ◌+◌, ◌-◌, ◌<◌, ap, ◌∙◌, arith, ◌≡◌, Option, none, some, Option-cases, List, [], ◌∷◌,
  inl, inr,
}
use rust_hft.Double.{Double}
use rust_hft.Ingestion.{Codec}
use rust_hft.System.Defs.{take_one, System, Action, step, run_all}

abbrev pub Holds {ℓ} : {A : Type ℓ} → (A → Type 0) → Option A → Type 0
Holds P none = Unit
Holds P (some x) = P x

pub map-Holds {ℓ ℓ'} :
    {A : Type ℓ} {B : Type ℓ'} (P : B → Type 0) (f : A → B) (o : Option A)
    → ((x : A) → o ≡ some x → P (f x))
    → Holds P (Option.map f o)
map-Holds P f o h = elim (Option-cases o) [ inl e ↦ rw e tt | inr (x, e) ↦ rw e (h x e) ]

pub take_one_pos : (n : ℕ) → 0 < n → take_one n ≡ some (n - 1)
take_one_pos zero h = absurd (omega (arith, h))
take_one_pos (suc n) h = ap some (omega arith)

pub take_one_succ : (n : ℕ) → take_one (n + 1) ≡ some n
take_one_succ n = take_one_pos (n + 1) (omega arith) ∙ ap some (omega arith)

module _ {F : Type 0} ⦃d : Double F⦄ where
  -- Every action of the schedule is allowed where it is taken.
  unfoldable pub IsAlong :
      (System F → Action → Type 0) → Codec → ℕ → System F → List Action → Type 0
  IsAlong Allows codec timeout_secs s [] = Unit
  IsAlong Allows codec timeout_secs s (a ∷ actions) =
      Allows s a
      × Holds (λ s'. IsAlong Allows codec timeout_secs s' actions) (step codec timeout_secs s a)

  -- What every allowed step keeps, a schedule keeps.
  pub run_all-Holds :
      (Allows : System F → Action → Type 0) (P : System F → Type 0) (codec : Codec)
      (timeout_secs : ℕ)
      → ((s : System F) (a : Action) → Allows s a → P s → Holds P (step codec timeout_secs s a))
      → (actions : List Action) (s : System F) → IsAlong Allows codec timeout_secs s actions
      → P s
      → Holds P (run_all codec timeout_secs s actions)
  unfolding run_all Option.bind IsAlong
  run_all-Holds Allows P codec timeout_secs keeps [] s w h = h
  run_all-Holds Allows P codec timeout_secs keeps (a ∷ actions) s (ok, w) h =
      elim (Option-cases (step codec timeout_secs s a)) [
        | inl e ↦ rw e tt
        | inr (s', e) ↦
            let h' : P s' = rw e at (keeps s a ok h) in
            let w' : IsAlong Allows codec timeout_secs s' actions = rw e at w in
            rw e (run_all-Holds Allows P codec timeout_secs keeps actions s' w' h')
      ]

  abbrev pub IsAny : System F → Action → Type 0
  IsAny s a = Unit

  pub IsAlong-IsAny :
      (codec : Codec) (timeout_secs : ℕ) (actions : List Action) (s : System F)
      → IsAlong IsAny codec timeout_secs s actions
  unfolding IsAlong
  IsAlong-IsAny codec t [] s = tt
  IsAlong-IsAny codec t (a ∷ actions) s =
      (tt, by_result (step codec t s a) (IsAlong-IsAny codec t actions))
    where
      by_result :
          (o : Option (System F))
          → ((s' : System F) → IsAlong IsAny codec t s' actions)
          → Holds (λ s'. IsAlong IsAny codec t s' actions) o
      by_result none h = tt
      by_result (some s') h = h s'
