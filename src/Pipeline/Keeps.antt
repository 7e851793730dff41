-- ===== src/Pipeline/Keeps.antt =====
-- What a round of the thread leaves alone, and the kill switch in the risk checks.
use rust_hft.Common.{
  ◌≡◌, refl, Bool, true, false, Option, none, some, List, [], ◌∷◌, String, ℕ, leb, length, arith,
  if◌then◌else◌,
}
use rust_hft.Double.{Double}
use rust_hft.Types.{Signal}
use rust_hft.Risk.{
  RiskChecker, Env, is_halted, check, forget, make_room, note_order, max_seen_order_ids,
}
use rust_hft.Risk.Gates.{is_accepted}
use rust_hft.Dashboard.{update_price_history}
use rust_hft.Pipeline.Defs.{Pipeline, with_price}

module _ {F : Type 0} ⦃d : Double F⦄ where
  pub check_halted :
      (s : RiskChecker F) (env : Env F) (signal : Signal F) (mid : F)
      → is_halted s env ≡ true
      → is_accepted (check s env signal mid) ≡ false
  unfolding check
  check_halted s env signal mid h = rw h refl

  pub note_order-halt_flag :
      (s : RiskChecker F) (id : String) (now : ℕ) → (note_order s id now).halt_flag ≡ s.halt_flag
  unfolding note_order make_room
  note_order-halt_flag s id now =
      by_room (leb max_seen_order_ids (length s.seen_order_queue)) s.seen_order_queue
    where
      by_room :
          (full : Bool) (queue : List String)
          → (if full then forget queue s else s).halt_flag ≡ s.halt_flag
      by_room false queue = refl
      by_room true [] = refl
      by_room true (id ∷ queue) = refl

  pub is_halted-on :
      (s : RiskChecker F) (env : Env F)
      → s.halt_flag ≡ true
      → env.halt ≡ true
      → is_halted s env ≡ true
  is_halted-on s env h i = ground arith

  -- What no event changes: the account, its mirrored cash, the kill switch and its wiring; and no order
  -- is sent while the switch is on.
  pub record Keeps (p p' : Pipeline F) : Type 0 where
    pub account_kept : p'.dash_state.account ≡ p.dash_state.account
    pub cash_kept : p'.dash_state.cash_bits ≡ p.dash_state.cash_bits
    pub buys_kept : p'.dash_state.buy_count ≡ p.dash_state.buy_count
    pub sells_kept : p'.dash_state.sell_count ≡ p.dash_state.sell_count
    pub halt_kept : p'.dash_state.halt_flag ≡ p.dash_state.halt_flag
    pub wiring_kept : p'.risk.halt_flag ≡ p.risk.halt_flag
    pub held : p.risk.halt_flag ≡ true → p.dash_state.halt_flag ≡ true → p'.orders ≡ p.orders

  pub with_price-Keeps :
      (p : Pipeline F) (price : Option F)
      → Keeps p (record p { dash_state = with_price price p.dash_state })
  unfolding update_price_history
  with_price-Keeps p none = record {
    account_kept = refl;
    cash_kept = refl;
    buys_kept = refl;
    sells_kept = refl;
    halt_kept = refl;
    wiring_kept = refl;
    held = λ h k. refl;
  }
  with_price-Keeps p (some price) = record {
    account_kept = refl;
    cash_kept = refl;
    buys_kept = refl;
    sells_kept = refl;
    halt_kept = refl;
    wiring_kept = refl;
    held = λ h k. refl;
  }
