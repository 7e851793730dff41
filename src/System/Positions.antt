-- ===== src/System/Positions.antt =====
-- The strategy's position, the orders' and the account's, over the schedules of all tasks.
use rust_hft.Common.{
  ℕ, ◌<◌, ◌-◌, arith, ◌≡◌, ◌∙◌, sym, ap, Bool, Option, some, List, ◌∷◌, ◌⊎◌, inl, inr, length, drop,
}
use rust_hft.Double.{Double}
use rust_hft.Double.Laws.{IsExact}
use rust_hft.Types.{Signal, ValidatedOrder}
use rust_hft.Config.{Config}
use rust_hft.Strategy.Trait.{Strategy}
use rust_hft.Strategy.Trades.{open_qty, Moves}
use rust_hft.Pnl.Ledger.{volume}
use rust_hft.Execution.Positions.{
  open_after, open_of, IsPaired, Moves-open_after, drop-IsPaired, amount, run-Has,
}
use rust_hft.Ingestion.{Codec}
use rust_hft.Pipeline
use rust_hft.Pipeline.{strategy_for, Reading}
use rust_hft.System.Defs.{System, Action, handle, on_handle, begin, run_all}
use rust_hft.System.Steps.{IsAlong, Holds}
use rust_hft.System.Booking.{taken, run_all-Booked}
use rust_hft.System.Turns.{Turn, run_all-At, strategy_for_flat}

module _ {F : Type 0} ⦃d : Double F⦄ where
  -- A round in which the strategy's position changes sends an order.
  abbrev pub IsServed : System F → System F → Type 0
  IsServed s s' =
      (open_qty s'.thread.strat ≡ open_qty s.thread.strat)
      ⊎ (length s.thread.orders < length s'.thread.orders)

  -- No signal is rejected.
  abbrev pub IsAccepted : System F → Action → Type 0
  IsAccepted s (handle at) = Holds (IsServed s) (on_handle s.queue s at)
  IsAccepted s a = Unit

  -- The strategy's position is what the orders leave open, and they open and close in turn.
  abbrev Agrees : Strategy F → List (ValidatedOrder F) → Type 0
  Agrees strat orders = (open_qty strat ≡ open_of orders) × IsPaired orders

  extend :
      (o o' : Option F) (signal : Signal F) (order : ValidatedOrder F)
      (orders : List (ValidatedOrder F))
      → order.signal ≡ signal
      → o ≡ open_of orders
      → Moves o signal o'
      → IsPaired orders
      → (o' ≡ open_of (order ∷ orders)) × IsPaired (order ∷ orders)
  extend o o' signal order orders e h m k =
      let f : o' ≡ open_after signal o = Moves-open_after o o' signal m in
      let g : Moves o signal (open_after signal o) = rw f at m in
      (rw (e, ← h) f, (rw (e, ← h) g, k))

  Turn-Agrees :
      (s s' : System F) (at : Reading)
      → IsAccepted s (handle at)
      → on_handle s.queue s at ≡ some s'
      → Turn s.thread s'.thread
      → Agrees s.thread.strat s.thread.orders
      → Agrees s'.thread.strat s'.thread.orders
  Turn-Agrees s s' at b e (inl (f, g)) h = rw (f, g) h
  Turn-Agrees s s' at b e (inr (signal, m, inl f)) (h, k) =
      let served : IsServed s s' = rw e at b in
      elim served [ inl g ↦ rw (f, g) (h, k) | inr l ↦ absurd (omega (arith, l, ap length f)) ]
  Turn-Agrees s s' at b e (inr (signal, m, inr (o, f, g))) (h, k) =
      rw f (
        extend (open_qty s.thread.strat) (open_qty s'.thread.strat) signal o s.thread.orders g h m
          k)

  run_all-Agrees :
      (cfg : Config F) (halt : Bool) (now : ℕ) (codec : Codec) (timeout_secs : ℕ)
      (actions : List Action) (s : System F)
      → IsAlong IsAccepted codec timeout_secs (begin cfg halt now) actions
      → run_all codec timeout_secs (begin cfg halt now) actions ≡ some s
      → Agrees s.thread.strat s.thread.orders
  unfolding begin Pipeline.start
  run_all-Agrees cfg halt now codec t actions s w e =
      run_all-At IsAccepted Agrees Turn-Agrees codec t actions (begin cfg halt now) s w
        (strategy_for_flat cfg.strategy _, tt) e

  module _ (laws : IsExact F) where
    -- In exact arithmetic, along any schedule of all tasks on which no signal is rejected, the account's
    -- lots amount to what the orders that the executor has taken leave open; and once it has taken all
    -- orders, to just the quantity that the strategy believes to hold (0 if it is flat).
    pub run_all-InPosition :
        (cfg : Config F) (halt : Bool) (now : ℕ) (codec : Codec) (timeout_secs : ℕ)
        (actions : List Action) (s : System F)
        → IsAlong IsAccepted codec timeout_secs (begin cfg halt now) actions
        → run_all codec timeout_secs (begin cfg halt now) actions ≡ some s
        → let lots = s.thread.dash_state.account.pnl.buy_queue in
          (volume laws lots ≡ amount laws (open_of (taken s.executed s.thread.orders)))
          × (s.executed ≡ length s.thread.orders
              → volume laws lots ≡ amount laws (open_qty s.thread.strat))
    run_all-InPosition cfg halt now codec t actions s w e =
        let (h, k) = run_all-Agrees cfg halt now codec t actions s w e in
        let orders = taken s.executed s.thread.orders in
        let has =
          run-Has laws cfg.paper.initial_capital_usdt cfg.paper.fee_pct orders
            s.thread.dash_state.account
            (drop-IsPaired (length s.thread.orders - s.executed) s.thread.orders k)
            (run_all-Booked cfg halt now codec t actions s e).account_is in
        (
          has.size,
          λ f.
              let g : length s.thread.orders - s.executed ≡ 0 = omega arith in
              has.size
              ∙ ap (λ i. amount laws (open_of (drop i s.thread.orders))) g
              ∙ sym (ap (amount laws) h),
        )
