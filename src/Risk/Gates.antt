-- ===== src/Risk/Gates.antt =====
-- When `check` accepts an order, and what a rejection leaves behind.
use rust_hft.Common.{
  ◌%◌, ◌^◌, ◌<◌, ◌≡◌, ◌↔◌, refl, Bool, true, false, Bool-cases, ◌&&◌, Option, none, some, ◌⊎◌, inl,
  inr, Result, ok, err, arith, length, leb,
}
use rust_hft.Double.{Double, gt, zero_f}
use rust_hft.Types.{Signal, buy, sell, hold, ValidatedOrder}
use rust_hft.Risk.Defs.{
  RiskChecker, Env, RiskError, contains, recent, balance, notional_of, pct_diff, refusal,
  note_order, admit, check_order, check_signal, is_halted, check,
}

module _ {F : Type 0} ⦃d : Double F⦄ where
  abbrev pub is_accepted : Option (RiskChecker F × Result (ValidatedOrder F) (RiskError F)) → Bool
  is_accepted none = false
  is_accepted (some (s, ok o)) = true
  is_accepted (some (s, err e)) = false

  -- The conditions on every order: no kill switch, a quantity within the maximum, a price within the
  -- band around a positive mid price, fewer recent orders than the rate allows, and a new identifier.
  pub record Permits (s : RiskChecker F) (env : Env F) (price qty mid : F) : Type 0 where
    pub running : is_halted s env ≡ false
    pub qty_fits : gt qty s.max_order_qty ≡ false
    pub in_band : (gt mid zero_f && gt (pct_diff price mid) s.price_band_pct) ≡ false
    pub rate_fits : length (recent env.now s.order_timestamps) % 2 ^ 32 < s.max_orders_per_sec
    pub new_id : contains env.uuid s.seen_order_ids ≡ false

  -- The conditions on a buy: the balance is not below its floor, and covers the order with headroom.
  pub record Covers (s : RiskChecker F) (env : Env F) (price qty : F) : Type 0 where
    pub above_floor : d.lt (balance s env) s.min_free_balance_usdt ≡ false
    pub affordable : gt (notional_of price qty) (balance s env) ≡ false

  admit_iff :
      (s : RiskChecker F) (env : Env F) (signal : Signal F)
      → (is_accepted (some (admit s env signal)) ≡ true) ↔ (
          (length (recent env.now s.order_timestamps) % 2 ^ 32 < s.max_orders_per_sec)
          × (contains env.uuid s.seen_order_ids ≡ false))
  unfolding admit
  admit_iff s env signal = ground arith

  refusal_buy_iff :
      (s : RiskChecker F) (env : Env F) (price qty mid : F)
      → (refusal s env price qty true mid ≡ none) ↔ (
          (gt qty s.max_order_qty ≡ false)
          × (d.lt (balance s env) s.min_free_balance_usdt ≡ false)
          × (gt (notional_of price qty) (balance s env) ≡ false)
          × ((gt mid zero_f && gt (pct_diff price mid) s.price_band_pct) ≡ false))
  unfolding refusal
  refusal_buy_iff s env price qty mid = ground arith

  refusal_sell_iff :
      (s : RiskChecker F) (env : Env F) (price qty mid : F)
      → (refusal s env price qty false mid ≡ none) ↔ (
          (gt qty s.max_order_qty ≡ false)
          × ((gt mid zero_f && gt (pct_diff price mid) s.price_band_pct) ≡ false))
  unfolding refusal
  refusal_sell_iff s env price qty mid = ground arith

  -- A buy is accepted exactly if no kill switch is on, its quantity is not above the maximum, its
  -- price is not outside the band around a positive mid price, fewer orders than the rate allows are
  -- recent, its identifier is new, and the balance is not below its floor and not less than the
  -- notional with headroom.
  pub check_buy_iff :
      (s : RiskChecker F) (env : Env F) (price qty mid : F)
      → (is_accepted (check s env (buy price qty) mid) ≡ true)
        ↔ (Permits s env price qty mid × Covers s env price qty)
  unfolding check
  check_buy_iff s env price qty mid =
      ground (arith, refusal_buy_iff s env price qty mid, admit_iff s env (buy price qty))

  -- A sell is accepted exactly if no kill switch is on, its quantity is not above the maximum, its
  -- price is not outside the band around a positive mid price, fewer orders than the rate allows are
  -- recent, and its identifier is new, whatever the balance.
  pub check_sell_iff :
      (s : RiskChecker F) (env : Env F) (price qty mid : F)
      → (is_accepted (check s env (sell price qty) mid) ≡ true) ↔ Permits s env price qty mid
  unfolding check
  check_sell_iff s env price qty mid =
      ground (arith, refusal_sell_iff s env price qty mid, admit_iff s env (sell price qty))

  -- What an outcome of `check` says of the call.
  abbrev pub Explains :
      RiskChecker F
      → Env F
      → Signal F
      → Option (RiskChecker F × Result (ValidatedOrder F) (RiskError F))
      → Type 0
  Explains s env signal none = signal ≡ hold
  Explains s env signal (some (s', ok o)) =
      (o ≡ record { signal = signal; client_order_id = env.uuid })
      × (contains env.uuid s.seen_order_ids ≡ false)
      × (length (recent env.now s.order_timestamps) % 2 ^ 32 < s.max_orders_per_sec)
      × (s'
          ≡ note_order (record s { order_timestamps = recent env.now s.order_timestamps }) env.uuid
              env.now)
  Explains s env signal (some (s', err e)) =
      (s' ≡ s) ⊎ (s' ≡ record s { order_timestamps = recent env.now s.order_timestamps })

  admit-Explains :
      (s : RiskChecker F) (env : Env F) (signal : Signal F)
      → Explains s env signal (some (admit s env signal))
  unfolding admit
  admit-Explains s env signal =
      elim (Bool-cases
        (leb s.max_orders_per_sec (length (recent env.now s.order_timestamps) % 2 ^ 32))) [
          | inl e ↦ rw e (inr refl)
          | inr e ↦ elim (Bool-cases (contains env.uuid s.seen_order_ids)) [
            | inl f ↦ rw (e, f) (inr refl)
            | inr f ↦ rw (e, f) (refl, f, ground arith, refl)
          ]
        ]

  -- `check` panics only on `hold`. An accepted order carries the signal as it came under an
  -- identifier that was not in use, is within the rate, and is noted in the checker; a rejection
  -- changes nothing but that time stamps which are a second old may be dropped.
  pub check-Explains :
      (s : RiskChecker F) (env : Env F) (signal : Signal F) (mid : F)
      → Explains s env signal (check s env signal mid)
  unfolding check
  check-Explains s env signal mid = elim (Bool-cases (is_halted s env)) [
    | inl e ↦ rw e (inl refl)
    | inr e ↦ rw e (by_signal signal)
  ]
    where
      after :
          (signal : Signal F) (r : Option (RiskError F))
          → Explains s env signal (some (check_order s env signal r))
      after signal (some e) = inl refl
      after signal none = admit-Explains s env signal

      by_signal : (signal : Signal F) → Explains s env signal (check_signal s env signal mid)
      by_signal (buy price qty) = after (buy price qty) (refusal s env price qty true mid)
      by_signal (sell price qty) = after (sell price qty) (refusal s env price qty false mid)
      by_signal hold = refl
