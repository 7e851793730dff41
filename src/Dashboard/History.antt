-- ===== src/Dashboard/History.antt =====
-- The bounded histories against the list of all entries.
use rust_hft.Common.{
  ℕ, zero, suc, ◌-◌, ◌≤◌, ◌<◌, ◌≡◌, refl, ap, ◌∙◌, Bool-cases, List, [], ◌∷◌, ◌++◌, inl, inr, arith,
  leb, length, length-append, tail, drop, foldl,
}
use mathlib.Core.List.{append-nil, append_assoc}
use rust_hft.Double.{Double}
use rust_hft.Dashboard.Defs.{
  push_bounded, SharedState, PaperTrade, add_trade, update_price_history, max_history, max_trades,
}

module _ {ℓ} {A : Type ℓ} where
  drop-append : (n : ℕ) (xs ys : List A) → n ≤ length xs → drop n (xs ++ ys) ≡ drop n xs ++ ys
  drop-append zero xs ys h = refl
  drop-append (suc n) [] ys h = absurd (omega arith)
  drop-append (suc n) (x ∷ xs) ys h = drop-append n xs ys (omega arith)

  tail-drop : (n : ℕ) (xs : List A) → tail (drop n xs) ≡ drop (suc n) xs
  tail-drop zero [] = refl
  tail-drop zero (x ∷ xs) = refl
  tail-drop (suc n) [] = refl
  tail-drop (suc n) (x ∷ xs) = tail-drop n xs

  length-drop : (n : ℕ) (xs : List A) → length (drop n xs) ≡ length xs - n
  length-drop zero xs = omega arith
  length-drop (suc n) [] = omega arith
  length-drop (suc n) (x ∷ xs) = omega (arith, length-drop n xs)

  -- The latest `limit` entries of a list, the oldest first.
  abbrev pub latest : ℕ → List A → List A
  latest limit xs = drop (length xs - limit) xs

  push_bounded-latest :
      (limit : ℕ) (xs : List A) (x : A)
      → 0 < limit
      → push_bounded limit (latest limit xs) x ≡ latest limit (xs ++ (x ∷ []))
  unfolding push_bounded
  push_bounded-latest limit xs x pos =
      let held = length-drop (length xs - limit) xs in
      let more = length-append xs (x ∷ []) in
      elim (Bool-cases (leb limit (length (latest limit xs)))) [
        | inl full ↦
            let n : length (xs ++ (x ∷ [])) - limit ≡ suc (length xs - limit) =
              ground (arith, held, more) in
            rw (full, n, drop-append (suc (length xs - limit)) xs (x ∷ []) (ground (arith, held)))
              (ap (λ l. l ++ (x ∷ [])) (tail-drop (length xs - limit) xs))
        | inr room ↦
            let m : length xs - limit ≡ 0 = ground (arith, held) in
            let n : length (xs ++ (x ∷ [])) - limit ≡ 0 = ground (arith, held, more) in
            rw (room, n, m) refl
      ]

  foldl-push_bounded :
      (limit : ℕ) (xs ys : List A)
      → 0 < limit
      → foldl (push_bounded limit) (latest limit ys) xs ≡ latest limit (ys ++ xs)
  foldl-push_bounded limit [] ys pos = rw append-nil refl
  foldl-push_bounded limit (x ∷ xs) ys pos = rw (push_bounded-latest limit ys x pos) (
      foldl-push_bounded limit xs (ys ++ (x ∷ [])) pos
      ∙ ap (latest limit) (append_assoc ys (x ∷ []) xs))

  push_all-latest :
      (limit : ℕ) (xs : List A) → 0 < limit → foldl (push_bounded limit) [] xs ≡ latest limit xs
  push_all-latest limit xs pos =
      let none_yet : 0 - limit ≡ 0 = omega arith in
      rw none_yet at (foldl-push_bounded limit xs [] pos)

  length-latest-le : (limit : ℕ) (xs : List A) → length (latest limit xs) ≤ limit
  length-latest-le limit xs = omega (arith, length-drop (length xs - limit) xs)

module _ {F : Type 0} ⦃d : Double F⦄ where
  price_history-push :
      (prices : List F) (s : SharedState F)
      → (foldl update_price_history s prices).price_history
        ≡ foldl (push_bounded max_history) s.price_history prices
  unfolding update_price_history
  price_history-push [] s = refl
  price_history-push (p ∷ prices) s = price_history-push prices (update_price_history s p)

  recent_trades-push :
      (trades : List (PaperTrade F)) (s : SharedState F)
      → (foldl add_trade s trades).recent_trades
        ≡ foldl (push_bounded max_trades) s.recent_trades trades
  unfolding add_trade
  recent_trades-push [] s = refl
  recent_trades-push (t ∷ trades) s = recent_trades-push trades (add_trade s t)

  -- From empty histories, after any prices and any trades the dashboard holds just the latest 300
  -- prices and the latest 50 trades, in their order.
  pub histories-latest :
      (s : SharedState F) (prices : List F) (trades : List (PaperTrade F))
      → s.price_history ≡ []
      → s.recent_trades ≡ []
      → ((foldl update_price_history s prices).price_history ≡ latest 300 prices)
        × ((foldl add_trade s trades).recent_trades ≡ latest 50 trades)
        × (length (latest 300 prices) ≤ 300)
        × (length (latest 50 trades) ≤ 50)
  histories-latest s prices trades e f = (
    price_history-push prices s ∙ (rw e (push_all-latest 300 prices (omega arith))),
    recent_trades-push trades s ∙ (rw f (push_all-latest 50 trades (omega arith))),
    length-latest-le 300 prices,
    length-latest-le 50 trades,
  )
