-- ===== src/Tests/Data.antt =====
-- Messages, books and checkers that the tests share.
use rust_hft.Common.{ℕ, ◌+◌, ◌*◌, ◌^◌, true, false, List, [], ◌∷◌, String}
use rust_hft.Common.Int.{ℤ, pos}
use rust_hft.Double.{Double}
use rust_hft.Double.Fixed.{decimal}
use rust_hft.Types.{DepthUpdate, DepthSnapshot, OrderbookSnapshot}
use rust_hft.Config.{Config}
use rust_hft.Orderbook.{Orderbook, buffering, live}
use rust_hft.Pnl
use rust_hft.Pnl.{new_account}
use rust_hft.Dashboard
use rust_hft.Dashboard.{SharedState}
use rust_hft.Risk.{RiskChecker, Env}

-- Ten decimals for `f64`.
instance abbrev pub decimal_double : Double ℤ
decimal_double = decimal

abbrev pub units : ℕ → ℤ
units n = pos (n * 10 ^ 10)

-- An update from the id after `p` to `u`.
abbrev pub update : ℕ → ℕ → List (String × String) → List (String × String) → DepthUpdate
update p u bids asks = record {
  event_type = "depthUpdate";
  event_time = 1000 * u;
  symbol = "btcusdt";
  first_update_id = p + 1;
  last_update_id = u;
  prev_last_update_id = p;
  bids = bids;
  asks = asks;
}

abbrev pub first_update : DepthUpdate
first_update = update 95 103 (("100.0", "2.0") ∷ []) []

abbrev pub second_update : DepthUpdate
second_update = update 103 105 (("99.0", "0.0") ∷ []) (("101.0", "3.0") ∷ [])

abbrev pub third_update : DepthUpdate
third_update = update 105 109 [] []

abbrev pub late_update : DepthUpdate
late_update = update 110 112 [] []

abbrev pub first_snapshot : DepthSnapshot
first_snapshot = record {
  last_update_id = 100;
  bids = ("99.0", "1.0") ∷ ("98.5", "4.0") ∷ [];
  asks = ("101.0", "1.5") ∷ [];
}

-- A book that is live at the id 100, with one level a side.
abbrev pub live_book : Orderbook ℤ
live_book = record {
  symbol = "btcusdt";
  bids = (9_900_000_000, units 1) ∷ [];
  asks = (10_100_000_000, units 2) ∷ [];
  depth_levels = 5;
  state = live 100;
}

abbrev pub buffering_book : List DepthUpdate → Orderbook ℤ
buffering_book buf = record live_book { bids = []; asks = []; state = buffering buf }

-- At most 1 a trade, 10 at least on the account, a band of 2 percent, and two orders a second.
abbrev pub checker : RiskChecker ℤ
checker = record {
  halted = false;
  halt_flag = true;
  balance_source = true;
  max_order_qty = units 1;
  min_free_balance_usdt = units 10;
  price_band_pct = units 2;
  max_orders_per_sec = 2;
  seen_order_ids = [];
  seen_order_queue = [];
  order_timestamps = [];
  free_balance_usdt = units 10_000;
}

abbrev pub env : Env ℤ
env = record { halt = false; cash = units 1000; now = 5_000_000_000; uuid = "a1" }

-- A snapshot with one bid and one ask.
abbrev pub quotes : ℕ → ℕ → OrderbookSnapshot ℤ
quotes bid ask = record {
  symbol = "btcusdt";
  bids = (units bid, units 1) ∷ [];
  asks = (units ask, units 1) ∷ [];
  timestamp_ms = 7;
}

-- The shared state of a program that has just started with 1000.
unfoldable pub shared : SharedState ℤ
unfolding Dashboard.new new_account Pnl.new
shared = Dashboard.new "btcusdt" (units 1000) (pos 400_000_000) false 0

abbrev pub settings : Config ℤ
settings = record {
  mode = "paper";
  symbol = "btcusdt";
  strategy = "pingpong";
  paper = record { initial_capital_usdt = units 1000; fee_pct = pos 400_000_000 };
  risk = record {
    max_order_qty = units 1;
    min_free_balance_usdt = units 10;
    price_band_pct = units 2;
    max_orders_per_sec = 2;
  };
  orderbook = record { depth_levels = 5 };
  exchange = record { ws_url = "wss://stream"; rest_url = "https://rest" };
  watchdog = record { timeout_secs = 30 };
  dashboard = record { port = 3000; enabled = true };
}
