-- ===== src/Execution/Defs.antt =====
-- The data and the methods of src/execution.rs. A line of the log is what `format!` is given; writing
-- it to the file is left out, and so are the console's log lines.
use mathlib.Core.Option
use rust_hft.Common.{ℕ, Option, some, List, [], ◌∷◌, ◌++◌, String}
use rust_hft.Double.{Double, ◌⊕◌, zero_f}
use rust_hft.Types.{Signal, buy, sell, hold, ValidatedOrder}
use rust_hft.Pnl.{PaperAccount, account_on_buy, account_on_sell}
use rust_hft.Dashboard.{SharedState, PaperTrade, incr, add_trade}

pub record LogLine (F : Type 0) : Type 0 where
  pub timestamp : String
  pub side : String
  pub symbol : String
  pub qty : F
  pub price : F
  pub signal : String
  pub client_id : String

pub record PaperExecutor (F : Type 0) : Type 0 where
  pub symbol : String
  -- the lines handed to the log file
  pub log_file : List (LogLine F)
  pub buy_count : ℕ
  pub sell_count : ℕ
  pub buy_volume : F
  pub sell_volume : F

-- What a line of statistics shows.
pub record Stats (F : Type 0) : Type 0 where
  pub buy_count : ℕ
  pub sell_count : ℕ
  pub buy_volume : F
  pub sell_volume : F

abbrev pub log_stats : {F : Type 0} → PaperExecutor F → Stats F
log_stats x = record {
  buy_count = x.buy_count;
  sell_count = x.sell_count;
  buy_volume = x.buy_volume;
  sell_volume = x.sell_volume;
}

module _ {F : Type 0} ⦃d : Double F⦄ where
  unfoldable pub new : String → PaperExecutor F
  new symbol = record {
    symbol = symbol;
    log_file = [];
    buy_count = 0;
    sell_count = 0;
    buy_volume = zero_f;
    sell_volume = zero_f;
  }

  abbrev pub line_of : String → String → PaperExecutor F → F → F → String → String → LogLine F
  line_of now side x price qty signal id = record {
    timestamp = now;
    side = side;
    symbol = x.symbol;
    qty = qty;
    price = price;
    signal = signal;
    client_id = id;
  }

  -- The counters and the line for a signal; `now` is the clock's text.
  abbrev pub execute_signal : PaperExecutor F → String → String → Signal F → PaperExecutor F
  execute_signal x now id (buy price qty) = record x {
    buy_count = incr x.buy_count;
    buy_volume = x.buy_volume ⊕ qty;
    log_file = x.log_file ++ (line_of now "BUY" x price qty "Buy" id ∷ []);
  }
  execute_signal x now id (sell price qty) = record x {
    sell_count = incr x.sell_count;
    sell_volume = x.sell_volume ⊕ qty;
    log_file = x.log_file ++ (line_of now "SELL" x price qty "Sell" id ∷ []);
  }
  execute_signal x now id hold = x

  unfoldable pub execute : PaperExecutor F → String → ValidatedOrder F → PaperExecutor F
  execute x now order = execute_signal x now order.client_order_id order.signal

  abbrev pub trade_of : String → String → F → F → String → PaperTrade F
  trade_of now side price qty id = record {
    timestamp = now;
    side = side;
    price = price;
    qty = qty;
    client_id = id;
  }

  -- The account after a fill, and its cash mirrored for the risk checker.
  abbrev pub with_account : SharedState F → PaperAccount F → SharedState F
  with_account s account = record s { account = account; cash_bits = account.cash }

  -- What `execute_with_state` does to the shared state; `none` is a loop without an end.
  abbrev pub share_signal : SharedState F → String → String → Signal F → Option (SharedState F)
  share_signal s now id (buy price qty) =
      let s' =
        with_account (record s { buy_count = incr s.buy_count })
          (account_on_buy s.account price qty) in
      some (add_trade s' (trade_of now "BUY" price qty id))
  share_signal s now id (sell price qty) =
      Option.map
        (λ account.
          add_trade (with_account (record s { sell_count = incr s.sell_count }) account)
            (trade_of now "SELL" price qty id))
        (account_on_sell s.account price qty)
  share_signal s now id hold = some s

  unfoldable pub execute_with_state :
      PaperExecutor F
      → SharedState F
      → String
      → ValidatedOrder F
      → Option (PaperExecutor F × SharedState F)
  unfolding execute
  execute_with_state x s now order =
      Option.map (λ s'. (execute x now order, s'))
        (share_signal s now order.client_order_id order.signal)
