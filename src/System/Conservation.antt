-- ===== src/System/Conservation.antt =====
-- The accounting identity of the paper account, over the schedules of all tasks.
use rust_hft.Common.{
  ℕ, ◌≡◌, ◌-◌, Bool, Option, none, some, List, [], ◌∷◌, All, All-append, All-drop, drop, length,
  inl, inr,
}
use rust_hft.Common.Int.{pos, ◌+ℤ◌, ◌≤ℤ◌, int_laws}
use rust_hft.Double.{Double}
use rust_hft.Double.Laws.{IsExact}
use rust_hft.Types.{Signal, buy, sell, hold, ValidatedOrder}
use rust_hft.Config.{Config}
use rust_hft.Strategy.Trait.{Strategy}
use rust_hft.Strategy.Trades.{open_qty, Moves}
use rust_hft.Pnl.{equity}
use rust_hft.Pnl.Account.{IsFill, run_conserves}
use rust_hft.Execution.Fills.{fills, fill_of}
use rust_hft.Ingestion.{Codec}
use rust_hft.Pipeline
use rust_hft.Pipeline.{Reading, strategy_for}
use rust_hft.System.Defs.{System, Action, handle, on_handle, begin, run_all}
use rust_hft.System.Steps.{IsAny, IsAlong-IsAny}
use rust_hft.System.Booking.{taken, run_all-Booked}
use rust_hft.System.Turns.{Turn, run_all-At, strategy_for_flat}

module _ {F : Type 0} ⦃d : Double F⦄ (laws : IsExact F) where
  open laws use {val, not_le_zero}

  abbrev IsOpen : Option F → Type 0
  IsOpen none = Unit
  IsOpen (some qty) = pos 0 ≤ℤ val qty

  abbrev IsSigned : Signal F → Type 0
  IsSigned (buy price qty) = pos 0 ≤ℤ val qty
  IsSigned (sell price qty) = pos 0 ≤ℤ val qty
  IsSigned hold = Unit

  Moves-IsSigned :
      (o o' : Option F) (signal : Signal F)
      → Moves o signal o'
      → IsOpen o
      → IsOpen o' × IsSigned signal
  Moves-IsSigned o o' (buy price qty) m h =
      let n : pos 0 ≤ℤ val qty = omega (int_laws, not_le_zero qty m.2) in (rw m.1 n, n)
  Moves-IsSigned o o' (sell price qty) m h = (rw m.1 tt, rw m.0 at h)
  Moves-IsSigned o o' hold m h = (rw m h, tt)

  -- Neither the strategy's position nor any order is negative.
  abbrev AreSigned : Strategy F → List (ValidatedOrder F) → Type 0
  AreSigned strat orders = IsOpen (open_qty strat) × All (λ o. IsSigned o.signal) orders

  Turn-AreSigned :
      (s s' : System F) (at : Reading)
      → IsAny s (handle at)
      → on_handle s.queue s at ≡ some s'
      → Turn s.thread s'.thread
      → AreSigned s.thread.strat s.thread.orders
      → AreSigned s'.thread.strat s'.thread.orders
  Turn-AreSigned s s' at b e (inl (f, g)) h = rw (f, g) h
  Turn-AreSigned s s' at b e (inr (signal, m, sent)) (h, k) =
      let (h', n) =
        Moves-IsSigned (open_qty s.thread.strat) (open_qty s'.thread.strat) signal m h in
      (h', elim sent [ inl f ↦ rw f k | inr (o, f, g) ↦ rw f (rw g n, k) ])

  taken-IsFill :
      (i : ℕ) (orders : List (ValidatedOrder F))
      → All (λ o. IsSigned o.signal) orders
      → All (IsFill laws) (fills (drop i orders))
  taken-IsFill i orders h = fills-IsFill (drop i orders) (All-drop _ i orders h)
    where
      signal-IsFill : (signal : Signal F) → IsSigned signal → All (IsFill laws) (fill_of signal)
      signal-IsFill (buy price qty) n = (n, tt)
      signal-IsFill (sell price qty) n = (n, tt)
      signal-IsFill hold n = tt

      fills-IsFill :
          (orders : List (ValidatedOrder F))
          → All (λ o. IsSigned o.signal) orders
          → All (IsFill laws) (fills orders)
      fills-IsFill [] h = tt
      fills-IsFill (o ∷ orders) h =
          All-append (IsFill laws) (fills orders) (fill_of o.signal) (fills-IsFill orders h.1)
            (signal-IsFill o.signal h.0)

  -- In exact arithmetic, from the start on and after any steps of the tasks in any order, no money is
  -- made or lost: the account's equity at cost plus the fees paid is its initial capital plus its
  -- realized profit.
  pub run_all_conserves :
      (cfg : Config F) (halt : Bool) (now : ℕ) (codec : Codec) (timeout_secs : ℕ)
      (actions : List Action) (s : System F)
      → run_all codec timeout_secs (begin cfg halt now) actions ≡ some s
      → let account = s.thread.dash_state.account in
        val (equity account none) +ℤ val account.total_fees
        ≡ val account.initial_capital +ℤ val account.pnl.realized_pnl
  unfolding begin Pipeline.start
  run_all_conserves cfg halt now codec t actions s e =
      let start : AreSigned (strategy_for cfg.strategy _) [] =
        (rw (strategy_for_flat cfg.strategy _) tt, tt) in
      let (h, k) =
        run_all-At IsAny AreSigned Turn-AreSigned codec t actions (begin cfg halt now) s
          (IsAlong-IsAny codec t actions (begin cfg halt now)) start e in
      run_conserves laws cfg.paper.initial_capital_usdt cfg.paper.fee_pct
        (fills (taken s.executed s.thread.orders)) s.thread.dash_state.account
        (taken-IsFill (length s.thread.orders - s.executed) s.thread.orders k)
        (run_all-Booked cfg halt now codec t actions s e).account_is
