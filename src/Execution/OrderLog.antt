-- ===== src/Execution/OrderLog.antt =====
-- The lines that executed orders leave in the order log.
use mathlib.Core.List.{append-nil, map-append}
use rust_hft.Common.{
  ◌≡◌, refl, sym, ◌∙◌, Option, Option-cases, none, some, List, [], ◌∷◌, ◌++◌, map, inl, inr, String,
}
use rust_hft.Double.{Double}
use rust_hft.Types.{Signal, buy, sell, hold, ValidatedOrder}
use rust_hft.Dashboard.{SharedState}
use rust_hft.Execution.Defs.{
  LogLine, PaperExecutor, execute_signal, share_signal, execute_with_state,
}

module _ {F : Type 0} where
  abbrev pub untimed : LogLine F → LogLine F
  untimed line = record line { timestamp = "" }

  abbrev pub line_for : String → String → Signal F → List (LogLine F)
  line_for symbol id (buy price qty) =
      record {
        timestamp = "";
        side = "BUY";
        symbol = symbol;
        qty = qty;
        price = price;
        signal = "Buy";
        client_id = id;
      }
      ∷ []
  line_for symbol id (sell price qty) =
      record {
        timestamp = "";
        side = "SELL";
        symbol = symbol;
        qty = qty;
        price = price;
        signal = "Sell";
        client_id = id;
      }
      ∷ []
  line_for symbol id hold = []

  -- The lines, oldest first, of orders with the newest first.
  abbrev pub lines_of : String → List (ValidatedOrder F) → List (LogLine F)
  lines_of symbol [] = []
  lines_of symbol (o ∷ orders) =
      lines_of symbol orders ++ line_for symbol o.client_order_id o.signal

  -- The executor trades the symbol, and its log is these lines but for the times.
  abbrev pub Logs : String → List (LogLine F) → PaperExecutor F → Type 0
  Logs symbol lines x = (x.symbol ≡ symbol) × (map untimed x.log_file ≡ lines)

module _ {F : Type 0} ⦃d : Double F⦄ where
  execute_signal-Logs :
      (x : PaperExecutor F) (now id : String) (signal : Signal F) (symbol : String)
      (lines : List (LogLine F))
      → Logs symbol lines x
      → Logs symbol (lines ++ line_for symbol id signal) (execute_signal x now id signal)
  execute_signal-Logs x now id (buy price qty) symbol lines (e, f) =
      (e, map-append untimed x.log_file _ ∙ rw (f, e) refl)
  execute_signal-Logs x now id (sell price qty) symbol lines (e, f) =
      (e, map-append untimed x.log_file _ ∙ rw (f, e) refl)
  execute_signal-Logs x now id hold symbol lines (e, f) = (e, f ∙ sym (append-nil lines))

  -- Executing an order adds its line.
  pub execute_with_state-Logs :
      (x : PaperExecutor F) (s : SharedState F) (now : String) (order : ValidatedOrder F)
      (r : PaperExecutor F × SharedState F) (symbol : String) (lines : List (LogLine F))
      → execute_with_state x s now order ≡ some r
      → Logs symbol lines x
      → Logs symbol (lines ++ line_for symbol order.client_order_id order.signal) r.0
  unfolding execute_with_state
  execute_with_state-Logs x s now order r symbol lines e h =
      elim (Option-cases (share_signal s now order.client_order_id order.signal)) [
        | inl f ↦
            let e' : ◌≡◌ {A = Option (PaperExecutor F × SharedState F)} none (some r) = rw f at e in
            cc
        | inr (t, f) ↦
            let e' : ◌≡◌ {A = Option (PaperExecutor F × SharedState F)}
                (some (execute_signal x now order.client_order_id order.signal, t)) (some r) =
              rw f at e in
            let same : (execute_signal x now order.client_order_id order.signal, t) ≡ r = cc in
            rw (← same)
              (execute_signal-Logs x now order.client_order_id order.signal symbol lines h)
      ]
