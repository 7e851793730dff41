-- ===== src/Pnl/Account.antt =====
-- The accounting identity of the paper account over any sequence of fills.
use mathlib.Core.Option
use rust_hft.Common.{
  ◌≡◌, Bool-cases, Option-cases, none, some, List, [], ◌∷◌, ◌++◌, map, foldl, inl, inr, All,
  All-append,
}
use rust_hft.Common.Int.{pos, ◌+ℤ◌, ◌≤ℤ◌, int_laws, parts, eq_of_parts}
use rust_hft.Double.{Double, ◌⊕◌, ◌⊖◌, ◌⊗◌, qty_epsilon}
use rust_hft.Double.Laws.{IsExact}
use rust_hft.Pnl.Defs.{
  FifoPnl, PaperAccount, new_account, on_sell, fee_on, account_on_buy, credit, account_on_sell,
  position_notional, equity,
}
use rust_hft.Pnl.Ledger.{cost, HasLots, on_sell_accounts}
use rust_hft.Pnl.Fills.{Fill, bought, sold, fill, run}

module _ {F : Type 0} ⦃d : Double F⦄ where
  module _ (laws : IsExact F) where
    open laws use {val, val_zero, val_start, val_add, val_sub, mul_zero, le_small}

    -- No fill has a negative quantity.
    abbrev pub IsFill : Fill F → Type 0
    IsFill (bought price qty) = pos 0 ≤ℤ val qty
    IsFill (sold price qty) = pos 0 ≤ℤ val qty

    -- Cash, the cost basis of the position and all fees add up to the initial capital and the realized
    -- profit, and no lot is negative.
    pub record IsBalanced (a : PaperAccount F) : Type 0 where
      pub balance :
          val a.cash +ℤ cost laws a.pnl.buy_queue +ℤ val a.total_fees
          ≡ val a.initial_capital +ℤ val a.pnl.realized_pnl
      pub lots : HasLots laws a.pnl.buy_queue

    cost-append :
        (q : List (F × F)) (p x : F) → cost laws (q ++ ((p, x) ∷ [])) ≡ cost laws q +ℤ val (p ⊗ x)
    cost-append [] p x = eq_of_parts _ _ (omega int_laws)
    cost-append ((p', x') ∷ q) p x = eq_of_parts _ _ (omega (int_laws, parts (cost-append q p x)))

    new_account-IsBalanced : (capital fee_pct : F) → IsBalanced (new_account capital fee_pct)
    unfolding new_account
    new_account-IsBalanced capital fee_pct = record {
      balance = eq_of_parts _ _ (omega (int_laws, parts val_zero));
      lots = tt;
    }

    account_on_buy-IsBalanced :
        (a : PaperAccount F) (price qty : F)
        → pos 0 ≤ℤ val qty
        → IsBalanced a
        → IsBalanced (account_on_buy a price qty)
    unfolding account_on_buy
    account_on_buy-IsBalanced a price qty n h =
        let fee = fee_on a (price ⊗ qty) in
        record {
          balance = eq_of_parts _ _ (
              omega (
                int_laws,
                parts h.balance,
                parts (cost-append a.pnl.buy_queue price qty),
                parts (val_sub a.cash (price ⊗ qty ⊕ fee)),
                parts (val_add (price ⊗ qty) fee),
                parts (val_add a.total_fees fee),
              ));
          lots =
              All-append (λ l. pos 0 ≤ℤ val l.1) a.pnl.buy_queue ((price, qty) ∷ []) h.lots (n, tt);
        }

    credit-IsBalanced :
        (a : PaperAccount F) (price qty : F) (s' : FifoPnl F) (matched : F)
        → pos 0 ≤ℤ val qty
        → IsBalanced a
        → on_sell a.pnl price qty ≡ some (s', matched)
        → IsBalanced (credit a price (s', matched))
    credit-IsBalanced a price qty s' matched n h e =
        let (nonneg, _, _, _, _, profit, lots) =
          on_sell_accounts laws a.pnl price qty s' matched h.lots n e in
        let fee = fee_on a (price ⊗ matched) in
        elim (Bool-cases (d.le matched qty_epsilon)) [
          | inl small ↦
              let nothing : val matched ≡ pos 0 =
                eq_of_parts _ _ (omega (int_laws, le_small matched small)) in
              rw small (record {
                balance = eq_of_parts _ _ (
                    omega (
                      int_laws,
                      parts h.balance,
                      parts profit,
                      parts (mul_zero price matched nothing),
                    ));
                lots = lots;
              })
          | inr large ↦ rw large (record {
            balance = eq_of_parts _ _ (
                omega (
                  int_laws,
                  parts h.balance,
                  parts profit,
                  parts (val_add a.cash (price ⊗ matched ⊖ fee)),
                  parts (val_sub (price ⊗ matched) fee),
                  parts (val_add a.total_fees fee),
                ));
            lots = lots;
          })
        ]

    fill-IsBalanced :
        (a : PaperAccount F) (f : Fill F) (a' : PaperAccount F)
        → IsFill f
        → IsBalanced a
        → fill a f ≡ some a'
        → IsBalanced a'
    unfolding fill account_on_sell
    fill-IsBalanced a (bought price qty) a' n h e =
        let same : account_on_buy a price qty ≡ a' = cc in
        rw (← same) (account_on_buy-IsBalanced a price qty n h)
    fill-IsBalanced a (sold price qty) a' n h e = elim (Option-cases (on_sell a.pnl price qty)) [
      | inl f ↦ let e' : none ≡ some a' = rw f at e in cc
      | inr ((s', matched), f) ↦
          let e' : some (credit a price (s', matched)) ≡ some a' = rw f at e in
          let same : credit a price (s', matched) ≡ a' = cc in
          rw (← same) (credit-IsBalanced a price qty s' matched n h f)
    ]

    run-IsBalanced :
        (fs : List (Fill F)) (a a' : PaperAccount F)
        → All IsFill fs
        → IsBalanced a
        → run a fs ≡ some a'
        → IsBalanced a'
    unfolding run Option.bind
    run-IsBalanced [] a a' n h e = let same : a ≡ a' = cc in rw (← same) h
    run-IsBalanced (f ∷ fs) a a' n h e = elim (Option-cases (fill a f)) [
      | inl g ↦ let e' : none ≡ some a' = rw g at e in cc
      | inr (b, g) ↦ run-IsBalanced fs b a' n.1 (fill-IsBalanced a f b n.0 h g) (rw g at e)
    ]

    sum_from-cost :
        (q : List (F × F)) (acc : F)
        → val (foldl d.add acc (map (λ l. l.0 ⊗ l.1) q)) ≡ val acc +ℤ cost laws q
    sum_from-cost [] acc = eq_of_parts _ _ (omega int_laws)
    sum_from-cost ((p, x) ∷ q) acc =
        eq_of_parts _ _
          (omega (int_laws, parts (sum_from-cost q (acc ⊕ p ⊗ x)), parts (val_add acc (p ⊗ x))))

    val-position_notional : (s : FifoPnl F) → val (position_notional s) ≡ cost laws s.buy_queue
    unfolding position_notional
    val-position_notional s =
        eq_of_parts _ _
          (omega (int_laws, parts (sum_from-cost s.buy_queue d.sum_start), parts val_start))

    -- In exact arithmetic no sequence of fills of quantities that are not negative makes or loses
    -- money: from a new account, the equity at cost plus the fees paid is always the initial capital
    -- plus the realized profit.
    pub run_conserves :
        (capital fee_pct : F) (fs : List (Fill F)) (a : PaperAccount F)
        → All IsFill fs
        → run (new_account capital fee_pct) fs ≡ some a
        → val (equity a none) +ℤ val a.total_fees ≡ val a.initial_capital +ℤ val a.pnl.realized_pnl
    unfolding equity
    run_conserves capital fee_pct fs a n e =
        let h =
          run-IsBalanced fs (new_account capital fee_pct) a n
            (new_account-IsBalanced capital fee_pct) e in
        eq_of_parts _ _ (
          omega (
            int_laws,
            parts h.balance,
            parts (val_add a.cash (position_notional a.pnl)),
            parts (val-position_notional a.pnl),
          ))
