-- ===== src/Dashboard/Defs.antt =====
-- The data and the methods of src/dashboard/mod.rs.
use mathlib.Core.Option
use rust_hft.Common.{
  ℕ, ◌+◌, ◌-◌, ◌%◌, ◌^◌, Bool, false, Option, none, some, List, [], ◌∷◌, ◌++◌, String, leb,
  if◌then◌else◌, length, take, tail, head?,
}
use rust_hft.Double.{Double, ◌⊖◌}
use rust_hft.Types.{OrderbookSnapshot}
use rust_hft.Pnl.{
  PaperAccount, new_account, position_qty, avg_entry_price, unrealized_pnl, equity,
  return_on_capital_pct,
}

pub record PaperTrade (F : Type 0) : Type 0 where
  pub timestamp : String
  pub side : String
  pub price : F
  pub qty : F
  pub client_id : String

pub record DashboardState (F : Type 0) : Type 0 where
  pub connected : Bool
  pub sync_state : String
  pub best_bid : Option F
  pub best_ask : Option F
  pub spread : Option F
  pub event_count : ℕ
  pub events_per_sec : F
  pub bids : List (F × F)
  pub asks : List (F × F)
  pub recent_trades : List (PaperTrade F)
  pub buy_count : ℕ
  pub sell_count : ℕ
  pub halted : Bool
  pub price_history : List F
  pub realized_pnl : F
  pub position_qty : F
  pub avg_entry_price : Option F
  pub unrealized_pnl : Option F
  pub pnl_history : List F
  pub initial_capital : F
  pub cash_balance : F
  pub equity : F
  pub capital_return_pct : F
  pub total_fees : F
  pub symbol : String
  pub started_at_ms : ℕ

pub record SharedState (F : Type 0) : Type 0 where
  pub symbol : String
  pub started_at_ms : ℕ
  pub connected : Bool
  pub is_live : Bool
  pub event_count : ℕ
  pub snapshot : Option (OrderbookSnapshot F)
  pub recent_trades : List (PaperTrade F)
  pub buy_count : ℕ
  pub sell_count : ℕ
  pub price_history : List F
  pub events_last_sec : ℕ
  pub events_last_checkpoint : ℕ
  pub account : PaperAccount F
  pub cash_bits : F
  pub pnl_history : List F
  pub halt_flag : Bool

-- `fetch_add(1)` on an `AtomicU64`.
abbrev pub incr : ℕ → ℕ
incr n = (n + 1) % 2 ^ 64

abbrev pub max_trades : ℕ
max_trades = 50

abbrev pub max_history : ℕ
max_history = 300

-- The bounded deque of all three histories: the oldest entry makes room for a new one.
unfoldable pub push_bounded {ℓ} : {A : Type ℓ} → ℕ → List A → A → List A
push_bounded limit xs x = if leb limit (length xs) then tail xs ++ (x ∷ []) else xs ++ (x ∷ [])

module _ {F : Type 0} ⦃d : Double F⦄ where
  unfoldable pub new : String → F → F → Bool → ℕ → SharedState F
  unfolding new_account
  new symbol initial_capital_usdt fee_pct halt_flag now = record {
    symbol = symbol;
    started_at_ms = now;
    connected = false;
    is_live = false;
    event_count = 0;
    snapshot = none;
    recent_trades = [];
    buy_count = 0;
    sell_count = 0;
    price_history = [];
    events_last_sec = 0;
    events_last_checkpoint = 0;
    account = new_account initial_capital_usdt fee_pct;
    cash_bits = initial_capital_usdt;
    pnl_history = [];
    halt_flag = halt_flag;
  }

  unfoldable pub add_trade : SharedState F → PaperTrade F → SharedState F
  add_trade s trade = record s { recent_trades = push_bounded max_trades s.recent_trades trade }

  unfoldable pub update_price_history : SharedState F → F → SharedState F
  update_price_history s price = record s {
    price_history = push_bounded max_history s.price_history price;
  }

  -- The first price of a side of the last snapshot.
  abbrev pub first_price : List (F × F) → Option F
  first_price levels = Option.map (λ l. l.0) (head? levels)

  abbrev pub best_bid_of : SharedState F → Option F
  best_bid_of s = Option.bind s.snapshot (λ x. first_price x.bids)

  abbrev pub best_ask_of : SharedState F → Option F
  best_ask_of s = Option.bind s.snapshot (λ x. first_price x.asks)

  -- `saturating_sub` is the subtraction that stops at 0.
  unfoldable pub sample_second : SharedState F → SharedState F
  unfolding equity
  sample_second s =
      let total_pnl = equity s.account (best_bid_of s) ⊖ s.account.initial_capital in
      record s {
        events_last_checkpoint = s.event_count;
        events_last_sec = s.event_count - s.events_last_checkpoint;
        pnl_history = push_bounded max_history s.pnl_history total_pnl;
      }

  -- `best_bid.zip(best_ask).map(|(b, a)| a - b)`
  abbrev pub spread_of : Option F → Option F → Option F
  spread_of (some b) (some a) = some (a ⊖ b)
  spread_of _ _ = none

  -- The first ten levels of a side of the last snapshot.
  abbrev pub top_levels :
      (OrderbookSnapshot F → List (F × F)) → Option (OrderbookSnapshot F) → List (F × F)
  top_levels side none = []
  top_levels side (some x) = take 10 (side x)

  unfoldable pub to_dashboard_state : SharedState F → DashboardState F
  unfolding Option.bind position_qty avg_entry_price unrealized_pnl equity return_on_capital_pct
  to_dashboard_state s =
      let best_bid = best_bid_of s in
      let best_ask = best_ask_of s in
      record {
        connected = s.connected;
        sync_state = if s.is_live then "Live" else "Buffering";
        best_bid = best_bid;
        best_ask = best_ask;
        spread = spread_of best_bid best_ask;
        event_count = s.event_count;
        events_per_sec = d.of_u64 s.events_last_sec;
        bids = top_levels (λ x. x.bids) s.snapshot;
        asks = top_levels (λ x. x.asks) s.snapshot;
        recent_trades = s.recent_trades;
        buy_count = s.buy_count;
        sell_count = s.sell_count;
        halted = s.halt_flag;
        price_history = s.price_history;
        realized_pnl = s.account.pnl.realized_pnl;
        position_qty = position_qty s.account.pnl;
        avg_entry_price = avg_entry_price s.account.pnl;
        unrealized_pnl = Option.map (unrealized_pnl s.account.pnl) best_bid;
        pnl_history = s.pnl_history;
        initial_capital = s.account.initial_capital;
        cash_balance = s.account.cash;
        equity = equity s.account best_bid;
        capital_return_pct = return_on_capital_pct s.account best_bid;
        total_fees = s.account.total_fees;
        symbol = s.symbol;
        started_at_ms = s.started_at_ms;
      }
