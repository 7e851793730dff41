-- ===== src/Strategy/Momentum/Timing.antt =====
-- The time stop and the cooldown over a run of snapshots.
use rust_hft.Common.{
  ℕ, ◌+◌, ◌^◌, ◌≤◌, ◌<◌, ◌≡◌, refl, Bool, true, false, Bool-cases, ◌||◌, Option, none, some, List,
  [], ◌∷◌, ◌⊎◌, inl, inr, arith, ltb, length, All,
}
use rust_hft.Double.{Double}
use rust_hft.Types.{OrderbookSnapshot, Signal, buy, sell, hold}
use rust_hft.Strategy.Momentum.Defs.{
  MomentumScalpStrategy, push_price, exit, enter, decide, quoted, on_orderbook, mid_price,
  momentum_over, lookback_price,
}

module _ {F : Type 0} ⦃d : Double F⦄ where
  abbrev pub HasBoth : List (F × F) → List (F × F) → Type 0
  HasBoth (b ∷ bids) (a ∷ asks) = Unit
  HasBoth _ _ = ⊥

  -- The snapshot has a bid and an ask.
  abbrev pub IsTwoSided : OrderbookSnapshot F → Type 0
  IsTwoSided snap = HasBoth snap.bids snap.asks

  abbrev pub is_sell : Signal F → Bool
  is_sell (sell price qty) = true
  is_sell (buy price qty) = false
  is_sell hold = false

  abbrev pub is_order : Signal F → Bool
  is_order (sell price qty) = true
  is_order (buy price qty) = true
  is_order hold = false

  -- Whether a run of snapshots gives a sell, or any order.
  pub sells : MomentumScalpStrategy F → List (OrderbookSnapshot F) → Bool
  sells s [] = false
  sells s (snap ∷ snaps) = let r = on_orderbook s snap in is_sell r.1 || sells r.0 snaps

  pub orders : MomentumScalpStrategy F → List (OrderbookSnapshot F) → Bool
  orders s [] = false
  orders s (snap ∷ snaps) = let r = on_orderbook s snap in is_order r.1 || orders r.0 snaps

  -- One snapshot of an open position: it is closed, or has one more tick and not yet too many.
  exit_or_wait :
      (s : MomentumScalpStrategy F) (bid : F)
      → s.held_ticks < s.max_hold_ticks
      → s.max_hold_ticks < 2 ^ 32
      → s.holding ≡ true
      → let r = exit s bid in
        (is_sell r.1 ≡ true)
        ⊎ ((r.0.holding ≡ true)
            × (r.0.held_ticks ≡ s.held_ticks + 1)
            × (r.0.held_ticks < r.0.max_hold_ticks)
            × (r.0.max_hold_ticks ≡ s.max_hold_ticks))
  unfolding exit
  exit_or_wait s bid few small e = ground arith

  -- What the time stop needs to know of a result.
  abbrev Waits : MomentumScalpStrategy F → MomentumScalpStrategy F × Signal F → Type 0
  Waits s r =
      (is_sell r.1 ≡ true)
      ⊎ ((r.0.holding ≡ true)
          × (r.0.held_ticks ≡ s.held_ticks + 1)
          × (r.0.held_ticks < r.0.max_hold_ticks)
          × (r.0.max_hold_ticks ≡ s.max_hold_ticks))

  decide-Waits :
      (s : MomentumScalpStrategy F) (snap : OrderbookSnapshot F) (bid ask mid : F)
      → s.held_ticks < s.max_hold_ticks
      → s.max_hold_ticks < 2 ^ 32
      → s.holding ≡ true
      → Waits s (decide s snap bid ask mid)
  unfolding decide
  decide-Waits s snap bid ask mid few small e = simp e (exit_or_wait s bid few small e)

  quoted-Waits :
      (s : MomentumScalpStrategy F) (snap : OrderbookSnapshot F) (bids asks : List (F × F))
      → HasBoth bids asks
      → s.held_ticks < s.max_hold_ticks
      → s.max_hold_ticks < 2 ^ 32
      → s.holding ≡ true
      → Waits s (quoted s snap bids asks)
  unfolding push_price
  quoted-Waits s snap [] asks both few small e = elim both [ ]
  quoted-Waits s snap (b ∷ bids) [] both few small e = elim both [ ]
  quoted-Waits s snap ((b, x) ∷ bids) ((a, y) ∷ asks) both few small e =
      decide-Waits (push_price s (mid_price b a)) snap b a (mid_price b a) few small e

  on_orderbook-Waits :
      (s : MomentumScalpStrategy F) (snap : OrderbookSnapshot F)
      → IsTwoSided snap
      → s.held_ticks < s.max_hold_ticks
      → s.max_hold_ticks < 2 ^ 32
      → s.holding ≡ true
      → Waits s (on_orderbook s snap)
  unfolding on_orderbook
  on_orderbook-Waits s snap = quoted-Waits s snap snap.bids snap.asks

  -- The time stop: a position that was held for fewer ticks than its maximum, a `u32`, is closed
  -- within the ticks that the maximum leaves, whatever the prices, if every snapshot has a bid and an
  -- ask.
  pub sells_in_time :
      (snaps : List (OrderbookSnapshot F)) (s : MomentumScalpStrategy F)
      → s.holding ≡ true
      → s.held_ticks < s.max_hold_ticks
      → s.max_hold_ticks < 2 ^ 32
      → All IsTwoSided snaps
      → s.max_hold_ticks ≤ s.held_ticks + length snaps
      → sells s snaps ≡ true
  unfolding sells
  sells_in_time [] s e few small both long = absurd (omega arith)
  sells_in_time (snap ∷ snaps) s e few small both long =
      elim (on_orderbook-Waits s snap both.0 few small e) [
        | inl sold ↦ rw sold refl
        | inr (e', ticks, few', same) ↦
            let rest =
              sells_in_time snaps (on_orderbook s snap).0 e' few' (omega arith) both.1
                (omega arith) in
            ground (arith, rest)
      ]

  -- A flat strategy places no order while its cooldown lasts.
  quoted_cooling :
      (s : MomentumScalpStrategy F) (snap : OrderbookSnapshot F) (bids asks : List (F × F)) (n : ℕ)
      → s.holding ≡ false
      → n + 1 ≤ s.cooldown_left
      → let r = quoted s snap bids asks in
        (is_order r.1 ≡ false) × (r.0.holding ≡ false) × (n ≤ r.0.cooldown_left)
  unfolding decide push_price
  quoted_cooling s snap [] asks n e long = (refl, e, omega arith)
  quoted_cooling s snap (b ∷ bids) [] n e long = (refl, e, omega arith)
  quoted_cooling s snap ((b, x) ∷ bids) ((a, y) ∷ asks) n e long =
      let cooling : ltb 0 s.cooldown_left ≡ true = ground arith in
      simp (e, cooling) (refl, refl, omega arith)

  on_orderbook_cooling :
      (s : MomentumScalpStrategy F) (snap : OrderbookSnapshot F) (n : ℕ)
      → s.holding ≡ false
      → n + 1 ≤ s.cooldown_left
      → let r = on_orderbook s snap in
        (is_order r.1 ≡ false) × (r.0.holding ≡ false) × (n ≤ r.0.cooldown_left)
  unfolding on_orderbook
  on_orderbook_cooling s snap = quoted_cooling s snap snap.bids snap.asks

  orders_cooling :
      (snaps : List (OrderbookSnapshot F)) (s : MomentumScalpStrategy F)
      → s.holding ≡ false
      → length snaps ≤ s.cooldown_left
      → orders s snaps ≡ false
  unfolding orders
  orders_cooling [] s e long = refl
  orders_cooling (snap ∷ snaps) s e long =
      let (quiet, flat, left) = on_orderbook_cooling s snap (length snaps) e (omega arith) in
      rw quiet (orders_cooling snaps (on_orderbook s snap).0 flat left)

  -- A sell leaves the strategy flat with the whole cooldown before it.
  abbrev Rests : MomentumScalpStrategy F → MomentumScalpStrategy F × Signal F → Type 0
  Rests s r = is_sell r.1 ≡ true → (r.0.holding ≡ false) × (r.0.cooldown_left ≡ s.cooldown_ticks)

  exit-Rests : (s : MomentumScalpStrategy F) (bid : F) → Rests s (exit s bid)
  unfolding exit
  exit-Rests s bid = ground arith

  enter-Rests :
      (s : MomentumScalpStrategy F) (snap : OrderbookSnapshot F) (ask : F) (m : Option F)
      → Rests s (enter s snap ask m)
  unfolding enter
  enter-Rests s snap ask none = ground arith
  enter-Rests s snap ask (some pct) = ground arith

  decide-Rests :
      (s : MomentumScalpStrategy F) (snap : OrderbookSnapshot F) (bid ask mid : F)
      → Rests s (decide s snap bid ask mid)
  unfolding decide
  decide-Rests s snap bid ask mid = elim (Bool-cases s.holding) [
    | inl e ↦ simp e (exit-Rests s bid)
    | inr e ↦ elim (Bool-cases (ltb 0 s.cooldown_left)) [
      | inl c ↦ simp (e, c) (λ h. cc)
      | inr c ↦ simp (e, c) (enter-Rests s snap ask (momentum_over mid (lookback_price s)))
    ]
  ]

  quoted-Rests :
      (s : MomentumScalpStrategy F) (snap : OrderbookSnapshot F) (bids asks : List (F × F))
      → Rests s (quoted s snap bids asks)
  unfolding push_price
  quoted-Rests s snap [] asks = λ h. cc
  quoted-Rests s snap (b ∷ bids) [] = λ h. cc
  quoted-Rests s snap ((b, x) ∷ bids) ((a, y) ∷ asks) =
      decide-Rests (push_price s (mid_price b a)) snap b a (mid_price b a)

  on_orderbook-Rests :
      (s : MomentumScalpStrategy F) (snap : OrderbookSnapshot F) → Rests s (on_orderbook s snap)
  unfolding on_orderbook
  on_orderbook-Rests s snap = quoted-Rests s snap snap.bids snap.asks

  -- The cooldown: after a sell the strategy places no order on any of the next `cooldown_ticks`
  -- snapshots.
  pub orders_after_sell :
      (s : MomentumScalpStrategy F) (snap : OrderbookSnapshot F)
      (snaps : List (OrderbookSnapshot F))
      → is_sell (on_orderbook s snap).1 ≡ true
      → length snaps ≤ s.cooldown_ticks
      → orders (on_orderbook s snap).0 snaps ≡ false
  orders_after_sell s snap snaps sold few =
      let (flat, full) = on_orderbook-Rests s snap sold in
      orders_cooling snaps (on_orderbook s snap).0 flat (omega arith)
