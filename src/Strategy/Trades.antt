-- ===== src/Strategy/Trades.antt =====
-- The order and the quantities of a strategy's signals over a run.
use rust_hft.Common.{
  ◌≡◌, refl, true, false, Bool-cases, Option, none, some, List, [], ◌∷◌, ◌⊎◌, inl, inr, arith,
  if◌then◌else◌, ltb, ◌-◌,
}
use mathlib.Core.Path.{subst}
use rust_hft.Double.{Double, zero_f}
use rust_hft.Types.{OrderbookSnapshot, Signal, buy, sell, hold}
use rust_hft.Strategy.PingPong
use rust_hft.Strategy.PingPong.{PingPongStrategy}
use rust_hft.Strategy.Momentum
use rust_hft.Strategy.Momentum.{MomentumScalpStrategy}
use rust_hft.Strategy.Trait.{Strategy, no_op, ping_pong, momentum, on_orderbook}

module _ {F : Type 0} ⦃d : Double F⦄ where
  -- The quantity that a strategy believes to hold.
  abbrev pub open_qty : Strategy F → Option F
  open_qty no_op = none
  open_qty (ping_pong s) = if s.holding then some s.entry_qty else none
  open_qty (momentum s) = if s.holding then some s.entry_qty else none

  -- How a signal may change the open quantity: a buy opens a position that is not empty or negative,
  -- and a sell closes it whole.
  abbrev pub Moves : Option F → Signal F → Option F → Type 0
  Moves o hold o' = o' ≡ o
  Moves o (buy price qty) o' = (o ≡ none) × (o' ≡ some qty) × (d.le qty zero_f ≡ false)
  Moves o (sell price qty) o' = (o ≡ some qty) × (o' ≡ none)

  abbrev pub Alternates : Option F → List (Signal F) → Type 0
  Alternates o [] = Unit
  Alternates o (hold ∷ signals) = Alternates o signals
  Alternates o (buy price qty ∷ signals) =
      (o ≡ none) × (d.le qty zero_f ≡ false) × Alternates (some qty) signals
  Alternates o (sell price qty ∷ signals) = (o ≡ some qty) × Alternates none signals

  ping_pong-Moves :
      (s : PingPongStrategy F) (bids asks : List (F × F))
      → let r = PingPong.quoted s bids asks in
        Moves (open_qty (ping_pong s)) r.1 (open_qty (ping_pong r.0))
  unfolding PingPong.enter PingPong.exit
  ping_pong-Moves s [] asks = refl
  ping_pong-Moves s (b ∷ bids) [] = refl
  ping_pong-Moves s ((b, bq) ∷ bids) ((a, aq) ∷ asks) = ground arith

  exit-Moves :
      (s : MomentumScalpStrategy F) (bid : F)
      → s.holding ≡ true
      → let r = Momentum.exit s bid in Moves (open_qty (momentum s)) r.1 (open_qty (momentum r.0))
  unfolding Momentum.exit
  exit-Moves s bid e = ground arith

  enter-Moves :
      (s : MomentumScalpStrategy F) (snap : OrderbookSnapshot F) (ask : F) (m : Option F)
      → s.holding ≡ false
      → let r = Momentum.enter s snap ask m in
        Moves (open_qty (momentum s)) r.1 (open_qty (momentum r.0))
  unfolding Momentum.enter
  enter-Moves s snap ask none e = refl
  enter-Moves s snap ask (some pct) e = ground arith

  decide_holding :
      (s : MomentumScalpStrategy F) (snap : OrderbookSnapshot F) (bid ask mid : F)
      → s.holding ≡ true
      → Momentum.decide s snap bid ask mid ≡ Momentum.exit s bid
  unfolding Momentum.decide
  decide_holding s snap bid ask mid e = simp e refl

  -- A flat strategy waits out its cooldown, and then may enter.
  decide_flat :
      (s : MomentumScalpStrategy F) (snap : OrderbookSnapshot F) (bid ask mid : F)
      → s.holding ≡ false
      → (Momentum.decide s snap bid ask mid
          ≡ (record s { cooldown_left = s.cooldown_left - 1 }, hold))
        ⊎ ((m : Option F) × (Momentum.decide s snap bid ask mid ≡ Momentum.enter s snap ask m))
  unfolding Momentum.decide
  decide_flat s snap bid ask mid e = elim (Bool-cases (ltb 0 s.cooldown_left)) [
    | inl c ↦ inl (simp (e, c) refl)
    | inr c ↦ inr (Momentum.momentum_over mid (Momentum.lookback_price s), simp (e, c) refl)
  ]

  decide-Moves :
      (s : MomentumScalpStrategy F) (snap : OrderbookSnapshot F) (bid ask mid : F)
      → let r = Momentum.decide s snap bid ask mid in
        Moves (open_qty (momentum s)) r.1 (open_qty (momentum r.0))
  decide-Moves s snap bid ask mid = elim (Bool-cases s.holding) [
    | inl e ↦ rw (decide_holding s snap bid ask mid e) (exit-Moves s bid e)
    | inr e ↦ elim (decide_flat s snap bid ask mid e) [
      | inl f ↦ rw f refl
      | inr (m, f) ↦ rw f (enter-Moves s snap ask m e)
    ]
  ]

  momentum-Moves :
      (s : MomentumScalpStrategy F) (snap : OrderbookSnapshot F) (bids asks : List (F × F))
      → let r = Momentum.quoted s snap bids asks in
        Moves (open_qty (momentum s)) r.1 (open_qty (momentum r.0))
  unfolding Momentum.push_price
  momentum-Moves s snap [] asks = refl
  momentum-Moves s snap (b ∷ bids) [] = refl
  momentum-Moves s snap ((b, bq) ∷ bids) ((a, aq) ∷ asks) =
      decide-Moves (Momentum.push_price s (Momentum.mid_price b a)) snap b a
        (Momentum.mid_price b a)

  pub on_orderbook-Moves :
      (s : Strategy F) (snap : OrderbookSnapshot F)
      → let r = on_orderbook s snap in Moves (open_qty s) r.1 (open_qty r.0)
  unfolding on_orderbook PingPong.on_orderbook Momentum.on_orderbook
  on_orderbook-Moves no_op snap = refl
  on_orderbook-Moves (ping_pong s) snap = ping_pong-Moves s snap.bids snap.asks
  on_orderbook-Moves (momentum s) snap = momentum-Moves s snap snap.bids snap.asks

  -- The signals of a run, one for each snapshot.
  unfoldable pub signals : Strategy F → List (OrderbookSnapshot F) → List (Signal F)
  signals s [] = []
  signals s (snap ∷ snaps) = let r = on_orderbook s snap in r.1 ∷ signals r.0 snaps

  Alternates-Moves :
      (o o' : Option F) (signal : Signal F) (rest : List (Signal F))
      → Moves o signal o'
      → Alternates o' rest
      → Alternates o (signal ∷ rest)
  Alternates-Moves o o' hold rest m a = subst (λ x. Alternates x rest) m a
  Alternates-Moves o o' (buy price qty) rest m a = (m.0, m.2, subst (λ x. Alternates x rest) m.1 a)
  Alternates-Moves o o' (sell price qty) rest m a = (m.0, subst (λ x. Alternates x rest) m.1 a)

  -- Over any snapshots, every strategy's buys and sells alternate, beginning with a buy if it is flat
  -- and with a sell if it holds; every buy is for a quantity that is not at most 0, and every sell is
  -- for the quantity bought before it.
  pub signals-Alternates :
      (s : Strategy F) (snaps : List (OrderbookSnapshot F))
      → Alternates (open_qty s) (signals s snaps)
  unfolding signals
  signals-Alternates s [] = tt
  signals-Alternates s (snap ∷ snaps) =
      let r = on_orderbook s snap in
      Alternates-Moves (open_qty s) (open_qty r.0) r.1 (signals r.0 snaps)
        (on_orderbook-Moves s snap) (signals-Alternates r.0 snaps)
