-- ===== src/Risk/Defs.antt =====
-- The data and the methods of src/risk.rs.
use text.Mathlib.Text.{◌==◌ as str_eq}
use rust_hft.Common.{
  ℕ, ◌-◌, ◌%◌, ◌^◌, Bool, true, false, ◌&&◌, ◌||◌, Option, none, some, List, [], ◌∷◌, ◌++◌, String,
  Result, ok, err, ltb, leb, if◌then◌else◌, length, retain,
}
use rust_hft.Double.{Double, ◌⊖◌, ◌⊗◌, ◌⊘◌, gt, zero_f, hundred}
use rust_hft.Types.{Signal, buy, sell, hold, ValidatedOrder}

abbrev pub max_seen_order_ids : ℕ
max_seen_order_ids = 10_000

-- `Duration::from_secs(1)`, in nanoseconds.
abbrev pub one_second : ℕ
one_second = 1_000_000_000

pub data RiskError (F : Type 0) : Type 0 where
  kill_switch : RiskError F
  max_qty_exceeded : F → F → RiskError F
  insufficient_balance : F → F → RiskError F
  insufficient_funds : F → F → RiskError F
  fat_finger : F → F → F → F → RiskError F
  rate_limit : ℕ → ℕ → RiskError F
  duplicate_order_id : String → RiskError F

-- The two shared cells are read through `Env`: here stands whether they are wired up.
pub record RiskChecker (F : Type 0) : Type 0 where
  pub halted : Bool
  pub halt_flag : Bool
  pub balance_source : Bool
  pub max_order_qty : F
  pub min_free_balance_usdt : F
  pub price_band_pct : F
  pub max_orders_per_sec : ℕ
  pub seen_order_ids : List String
  pub seen_order_queue : List String
  pub order_timestamps : List ℕ
  pub free_balance_usdt : F

-- What one call of `check` reads: the flag, the mirrored cash, `Instant::now()` in nanoseconds, and
-- the text of a new UUID.
pub record Env (F : Type 0) : Type 0 where
  pub halt : Bool
  pub cash : F
  pub now : ℕ
  pub uuid : String

-- `HashSet<String>` as a list without repetitions.
abbrev pub contains : String → List String → Bool
contains x [] = false
contains x (y ∷ ys) = str_eq y x || contains x ys

abbrev pub insert_id : String → List String → List String
insert_id x ys = if contains x ys then ys else x ∷ ys

abbrev pub remove_id : String → List String → List String
remove_id x [] = []
remove_id x (y ∷ ys) = let rest = remove_id x ys in if str_eq y x then rest else y ∷ rest

-- `now.duration_since(t) < Duration::from_secs(1)`; the difference stops at 0.
abbrev pub is_recent : ℕ → ℕ → Bool
is_recent now t = ltb (now - t) one_second

abbrev pub recent : ℕ → List ℕ → List ℕ
recent now = retain (is_recent now)

module _ {F : Type 0} ⦃d : Double F⦄ where
  unfoldable pub new : F → F → F → ℕ → RiskChecker F
  new max_order_qty min_free_balance_usdt price_band_pct max_orders_per_sec = record {
    halted = false;
    halt_flag = false;
    balance_source = false;
    max_order_qty = max_order_qty;
    min_free_balance_usdt = min_free_balance_usdt;
    price_band_pct = price_band_pct;
    max_orders_per_sec = max_orders_per_sec;
    seen_order_ids = [];
    seen_order_queue = [];
    order_timestamps = [];
    free_balance_usdt = d.lit 10_000 0;
  }

  abbrev pub with_halt_flag : RiskChecker F → RiskChecker F
  with_halt_flag s = record s { halt_flag = true }

  abbrev pub with_balance_source : RiskChecker F → RiskChecker F
  with_balance_source s = record s { balance_source = true }

  -- The balance that a buy is held to.
  abbrev pub balance : RiskChecker F → Env F → F
  balance s env = if s.balance_source then env.cash else s.free_balance_usdt

  -- `price * qty * 1.001`
  abbrev pub notional_of : F → F → F
  notional_of price qty = price ⊗ qty ⊗ d.lit 1001 3

  -- `((price - mid_price) / mid_price).abs() * 100.0`
  abbrev pub pct_diff : F → F → F
  pct_diff price mid = d.abs ((price ⊖ mid) ⊘ mid) ⊗ hundred

  -- The checks up to the price band, which change nothing: the error of the first that fails.
  unfoldable pub refusal : RiskChecker F → Env F → F → F → Bool → F → Option (RiskError F)
  refusal s env price qty is_buy mid =
      if gt qty s.max_order_qty
      then some (max_qty_exceeded qty s.max_order_qty)
      else if is_buy && d.lt (balance s env) s.min_free_balance_usdt
      then some (insufficient_balance (balance s env) s.min_free_balance_usdt)
      else if is_buy && gt (notional_of price qty) (balance s env)
      then some (insufficient_funds (notional_of price qty) (balance s env))
      else if gt mid zero_f && gt (pct_diff price mid) s.price_band_pct
      then some (fat_finger price mid (pct_diff price mid) s.price_band_pct)
      else none

  -- The oldest identifier leaves a full window.
  abbrev pub forget : List String → RiskChecker F → RiskChecker F
  forget [] s = s
  forget (oldest ∷ rest) s = record s {
    seen_order_queue = rest;
    seen_order_ids = remove_id oldest s.seen_order_ids;
  }

  unfoldable pub make_room : RiskChecker F → RiskChecker F
  make_room s =
      if leb max_seen_order_ids (length s.seen_order_queue) then forget s.seen_order_queue s else s

  -- The state after an accepted order.
  unfoldable pub note_order : RiskChecker F → String → ℕ → RiskChecker F
  note_order s id now =
      let s' = make_room s in
      record s' {
        seen_order_ids = insert_id id s'.seen_order_ids;
        seen_order_queue = s'.seen_order_queue ++ (id ∷ []);
        order_timestamps = s'.order_timestamps ++ (now ∷ []);
      }

  -- The rest of `check`, from `Instant::now()` on.
  unfoldable pub admit :
      RiskChecker F → Env F → Signal F → RiskChecker F × Result (ValidatedOrder F) (RiskError F)
  unfolding note_order make_room
  admit s env signal =
      let kept = record s { order_timestamps = recent env.now s.order_timestamps } in
      let current_rate = length kept.order_timestamps in
      if leb s.max_orders_per_sec (current_rate % 2 ^ 32)
      then (kept, err (rate_limit current_rate s.max_orders_per_sec))
      else if contains env.uuid s.seen_order_ids
      then (kept, err (duplicate_order_id env.uuid))
      else (
        note_order kept env.uuid env.now,
        ok (record { signal = signal; client_order_id = env.uuid }),
      )

  abbrev pub check_order :
      RiskChecker F
      → Env F
      → Signal F
      → Option (RiskError F)
      → RiskChecker F × Result (ValidatedOrder F) (RiskError F)
  check_order s env signal (some e) = (s, err e)
  check_order s env signal none = admit s env signal

  -- The signal's arms; `none` is the panic of `unreachable!`.
  abbrev pub check_signal :
      RiskChecker F
      → Env F
      → Signal F
      → F
      → Option (RiskChecker F × Result (ValidatedOrder F) (RiskError F))
  check_signal s env (buy price qty) mid =
      some (check_order s env (buy price qty) (refusal s env price qty true mid))
  check_signal s env (sell price qty) mid =
      some (check_order s env (sell price qty) (refusal s env price qty false mid))
  check_signal s env hold mid = none

  -- Whether the kill switch is on.
  abbrev pub is_halted : RiskChecker F → Env F → Bool
  is_halted s env = s.halted || (s.halt_flag && env.halt)

  unfoldable pub check :
      RiskChecker F
      → Env F
      → Signal F
      → F
      → Option (RiskChecker F × Result (ValidatedOrder F) (RiskError F))
  unfolding refusal admit
  check s env signal mid =
      if is_halted s env then some (s, err kill_switch) else check_signal s env signal mid
