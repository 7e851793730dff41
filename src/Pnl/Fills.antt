-- ===== src/Pnl/Fills.antt =====
-- Sequences of fills on the paper account, and their termination.
use mathlib.Core.Option
use rust_hft.Common.{◌≡◌, refl, Bool-cases, Option, some, List, [], ◌∷◌, inl, inr, All, All-append}
use rust_hft.Double.{Double, qty_epsilon}
use rust_hft.Double.Laws.{IsFloat, IsFinite}
use rust_hft.Pnl.Defs.{FifoPnl, PaperAccount, account_on_buy, credit, account_on_sell}
use rust_hft.Pnl.Totality.{HasFiniteLots, on_sell_finite}

-- What the exchange reports back: a quantity bought or sold at a price.
pub data Fill (F : Type 0) : Type 0 where
  bought : F → F → Fill F
  sold : F → F → Fill F

module _ {F : Type 0} ⦃d : Double F⦄ where
  unfoldable pub fill : PaperAccount F → Fill F → Option (PaperAccount F)
  fill a (bought price qty) = some (account_on_buy a price qty)
  fill a (sold price qty) = account_on_sell a price qty

  unfoldable pub run : PaperAccount F → List (Fill F) → Option (PaperAccount F)
  run a [] = some a
  run a (f ∷ fs) = Option.bind (fill a f) (λ a'. run a' fs)

  credit-HasFiniteLots :
      (a : PaperAccount F) (price : F) (s' : FifoPnl F) (matched : F)
      → HasFiniteLots s'.buy_queue
      → HasFiniteLots (credit a price (s', matched)).pnl.buy_queue
  credit-HasFiniteLots a price s' matched h = elim (Bool-cases (d.le matched qty_epsilon)) [
    | inl e ↦ rw e h
    | inr e ↦ rw e h
  ]

  module _ (laws : IsFloat F) where
    -- A buy has a finite quantity.
    abbrev pub IsFiniteFill : Fill F → Type 0
    IsFiniteFill (bought price qty) = IsFinite qty
    IsFiniteFill (sold price qty) = Unit

    fill_total :
        (a : PaperAccount F) (f : Fill F)
        → IsFiniteFill f
        → HasFiniteLots a.pnl.buy_queue
        → (a' : PaperAccount F) × (fill a f ≡ some a') × HasFiniteLots a'.pnl.buy_queue
    unfolding fill account_on_buy account_on_sell
    fill_total a (bought price qty) n h = (
      account_on_buy a price qty,
      refl,
      All-append (λ l. IsFinite l.1) a.pnl.buy_queue ((price, qty) ∷ []) h (n, tt),
    )
    fill_total a (sold price qty) n h =
        let ((s', matched), e, k) = on_sell_finite laws a.pnl price qty h in
        (credit a price (s', matched), rw e refl, credit-HasFiniteLots a price s' matched k)

    -- From an account whose lots are finite, every sequence of fills whose buys have finite
    -- quantities is carried out to its end.
    pub run_total :
        (fs : List (Fill F)) (a : PaperAccount F)
        → All IsFiniteFill fs
        → HasFiniteLots a.pnl.buy_queue
        → (a' : PaperAccount F) × (run a fs ≡ some a')
    unfolding run Option.bind
    run_total [] a n h = (a, refl)
    run_total (f ∷ fs) a n h =
        let (b, e, k) = fill_total a f n.0 h in let (a', r) = run_total fs b n.1 k in (a', rw e r)

    pub account_on_sell_total :
        (a : PaperAccount F) (price qty : F)
        → HasFiniteLots a.pnl.buy_queue
        → (a' : PaperAccount F) × (account_on_sell a price qty ≡ some a')
    unfolding account_on_sell
    account_on_sell_total a price qty h =
        let (r, e, _) = on_sell_finite laws a.pnl price qty h in (credit a price r, rw e refl)
