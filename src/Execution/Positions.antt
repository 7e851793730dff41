-- ===== src/Execution/Positions.antt =====
-- Orders that open and close positions in turn, and the account after their fills.
use mathlib.Core.Option
use rust_hft.Common.{
  ℕ, zero, suc, ◌≡◌, refl, sym, ◌∙◌, Bool-cases, Option, Option-cases, none, some, List, [], ◌∷◌,
  ◌++◌, inl, inr, All-append, drop,
}
use rust_hft.Common.Int.{ℤ, pos, ◌+ℤ◌, ◌≤ℤ◌, int_laws, parts, eq_of_parts}
use rust_hft.Double.{Double, qty_epsilon}
use rust_hft.Double.Laws.{IsExact}
use rust_hft.Types.{Signal, buy, sell, hold, ValidatedOrder}
use rust_hft.Strategy.Trades.{Moves}
use rust_hft.Pnl
use rust_hft.Pnl.{
  FifoPnl, PaperAccount, new_account, on_sell, account_on_buy, credit, account_on_sell,
}
use rust_hft.Pnl.Ledger.{volume, HasLots, volume_nonneg, on_sell_accounts}
use rust_hft.Pnl.Fills.{fill, run}
use rust_hft.Execution.Fills.{fill_of, fills, run-append}

module _ {F : Type 0} where
  -- The open quantity after an order, and after orders with the newest first.
  abbrev pub open_after : Signal F → Option F → Option F
  open_after (buy price qty) o = some qty
  open_after (sell price qty) o = none
  open_after hold o = o

  abbrev pub open_of : List (ValidatedOrder F) → Option F
  open_of [] = none
  open_of (order ∷ orders) = open_after order.signal (open_of orders)

module _ {F : Type 0} ⦃d : Double F⦄ where
  -- Every buy finds nothing open, and every sell closes what the buy before it opened.
  abbrev pub IsPaired : List (ValidatedOrder F) → Type 0
  IsPaired [] = Unit
  IsPaired (order ∷ orders) =
      Moves (open_of orders) order.signal (open_after order.signal (open_of orders))
      × IsPaired orders

  pub Moves-open_after :
      (o o' : Option F) (signal : Signal F) → Moves o signal o' → o' ≡ open_after signal o
  Moves-open_after o o' (buy price qty) m = m.1
  Moves-open_after o o' (sell price qty) m = m.1
  Moves-open_after o o' hold m = m

  pub drop-IsPaired :
      (i : ℕ) (orders : List (ValidatedOrder F)) → IsPaired orders → IsPaired (drop i orders)
  drop-IsPaired zero orders h = h
  drop-IsPaired (suc i) [] h = tt
  drop-IsPaired (suc i) (order ∷ orders) h = drop-IsPaired i orders h.1

  module _ (laws : IsExact F) where
    open laws use {val, not_le_zero}

    abbrev pub amount : Option F → ℤ
    amount none = pos 0
    amount (some qty) = val qty

    -- The account holds lots for the open quantity, none of them negative.
    pub record Has (o : Option F) (a : PaperAccount F) : Type 0 where
      pub size : volume laws a.pnl.buy_queue ≡ amount o
      pub lots : HasLots laws a.pnl.buy_queue

    volume-append :
        (q : List (F × F)) (p x : F) → volume laws (q ++ ((p, x) ∷ [])) ≡ volume laws q +ℤ val x
    volume-append [] p x = eq_of_parts _ _ (omega int_laws)
    volume-append ((p', x') ∷ q) p x =
        eq_of_parts _ _ (omega (int_laws, parts (volume-append q p x)))

    buy-Has :
        (a : PaperAccount F) (price qty : F)
        → pos 0 ≤ℤ val qty
        → Has none a
        → Has (some qty) (account_on_buy a price qty)
    unfolding account_on_buy
    buy-Has a price qty n h = record {
      size =
          eq_of_parts _ _
            (omega (int_laws, parts (volume-append a.pnl.buy_queue price qty), parts h.size));
      lots = All-append (λ l. pos 0 ≤ℤ val l.1) a.pnl.buy_queue ((price, qty) ∷ []) h.lots (n, tt);
    }

    sell-Has :
        (a : PaperAccount F) (price qty : F) (a' : PaperAccount F)
        → Has (some qty) a
        → account_on_sell a price qty ≡ some a'
        → Has none a'
    unfolding account_on_sell
    sell-Has a price qty a' h e = elim (Option-cases (on_sell a.pnl price qty)) [
      | inl f ↦ let e' : none ≡ some a' = rw f at e in cc
      | inr ((s', matched), f) ↦
          let e' : some (credit a price (s', matched)) ≡ some a' = rw f at e in
          let same : credit a price (s', matched) ≡ a' = cc in
          let n : pos 0 ≤ℤ val qty =
            omega (int_laws, parts h.size, volume_nonneg laws a.pnl.buy_queue h.lots) in
          let (_, _, _, all, left, _, lots) =
            on_sell_accounts laws a.pnl price qty s' matched h.lots n f in
          rw (← same) (
            credited s' matched
              (elim all [
                | inl g ↦ eq_of_parts _ _ (omega (int_laws, parts left, parts g, parts h.size))
                | inr g ↦ eq_of_parts _ _ (omega (int_laws, parts left, parts g))
              ])
              lots)
    ]
      where
        credited :
            (s' : FifoPnl F) (matched : F)
            → volume laws s'.buy_queue ≡ pos 0
            → HasLots laws s'.buy_queue
            → Has none (credit a price (s', matched))
        credited s' matched v l = elim (Bool-cases (d.le matched qty_epsilon)) [
          | inl e ↦ rw e (record { size = v; lots = l })
          | inr e ↦ rw e (record { size = v; lots = l })
        ]

    order-Has :
        (o o' : Option F) (signal : Signal F) (a a' : PaperAccount F)
        → Moves o signal o'
        → run a (fill_of signal) ≡ some a'
        → Has o a
        → Has o' a'
    unfolding run fill Option.bind
    order-Has o o' (buy price qty) a a' m e h =
        let same : account_on_buy a price qty ≡ a' = cc in
        let n : pos 0 ≤ℤ val qty = omega (int_laws, not_le_zero qty m.2) in
        rw (← same, m.1) (buy-Has a price qty n (rw m.0 at h))
    order-Has o o' (sell price qty) a a' m e h = elim (Option-cases (account_on_sell a price qty)) [
      | inl f ↦ let e' : none ≡ some a' = rw f at e in cc
      | inr (b, f) ↦
          let e' : some b ≡ some a' = rw f at e in
          let same : b ≡ a' = cc in rw (← same, m.1) (sell-Has a price qty b (rw m.0 at h) f)
    ]
    order-Has o o' hold a a' m e h = let same : a ≡ a' = cc in rw (← same, m) h

    -- In exact arithmetic, after the fills of such orders a new account holds what they leave open.
    pub run-Has :
        (capital fee_pct : F) (orders : List (ValidatedOrder F)) (a : PaperAccount F)
        → IsPaired orders
        → run (new_account capital fee_pct) (fills orders) ≡ some a
        → Has (open_of orders) a
    unfolding run new_account Pnl.new Option.bind
    run-Has capital fee_pct [] a m e =
        let same : new_account capital fee_pct ≡ a = cc in
        rw (← same) (record { size = refl; lots = tt })
    run-Has capital fee_pct (order ∷ orders) a m e =
        let first = new_account capital fee_pct in
        let last : Option.bind (run first (fills orders)) (λ b. run b (fill_of order.signal))
            ≡ some a =
          sym (run-append (fills orders) (fill_of order.signal) first) ∙ e in
        elim (Option-cases (run first (fills orders))) [
          | inl f ↦ let e' : none ≡ some a = rw f at last in cc
          | inr (b, f) ↦
              order-Has (open_of orders) (open_of (order ∷ orders)) order.signal b a m.0
                (rw f at last) (run-Has capital fee_pct orders b m.1 f)
        ]
