-- ===== src/BacktestCommand/Defs.antt =====
-- The steps of `main` in src/bin/backtest.rs up to the printing. The files, the number parser and the
-- clocks are arguments.
use mathlib.Core.Option
use package.text.Mathlib.Text.{◌==◌ as str_eq}
use rust_hft.Common.{
  ℕ, ◌+◌, Bool, true, false, Option, none, some, List, [], ◌∷◌, map, retain, String, Result, ok,
  err, ◌>>=◌, map_err, if◌then◌else◌,
}
use rust_hft.Double.{Double, ◌⊗◌, ◌⊘◌, gt, zero_f, hundred, sum}
use rust_hft.Types.{DepthUpdate, DepthSnapshot}
use rust_hft.Config.{Config}
use rust_hft.Strategy.Trait.{Strategy, no_op, ping_pong, momentum}
use rust_hft.Strategy.PingPong
use rust_hft.Strategy.Momentum
use rust_hft.Risk
use rust_hft.Risk.{RiskChecker, Env}
use rust_hft.DataLoader.{Source, LoadError, Printer, load_depth_updates, generate_synthetic_data}
use rust_hft.Backtest
use rust_hft.Backtest.{Backtester, BacktestResult, Trade, Round, is_buy}

-- The variables that the arguments set.
pub record Options : Type 0 where
  pub data_path : Option String
  pub strategy_name : String
  pub num_events : ℕ

abbrev pub default_options : Options
default_options = record { data_path = none; strategy_name = "noop"; num_events = 100 }

-- The errors: of the configuration, of `str::parse`, of the data, and the messages of `main`.
pub data CommandError (E J N : Type 0) : Type 0 where
  config_error : E → CommandError E J N
  missing_value : String → CommandError E J N
  parse_error : N → CommandError E J N
  load_error : LoadError E J → CommandError E J N
  unknown_strategy : String → CommandError E J N

-- The arms of the `match` on an argument.
pub data Arg : Type 0 where
  strategy_flag : Arg
  events_flag : Arg
  positional : Arg

unfoldable pub arg_of : String → Arg
arg_of arg =
    if str_eq arg "--strategy"
    then strategy_flag
    else if str_eq arg "--events"
    then events_flag
    else positional

module _ {E J N : Type 0} (parse : String → Result ℕ N) where
  -- An argument with no other behind it.
  abbrev pub last_arg : Arg → String → Options → Result Options (CommandError E J N)
  last_arg strategy_flag arg o = err (missing_value "--strategy")
  last_arg events_flag arg o = err (missing_value "--events")
  last_arg positional arg o = ok (record o { data_path = some arg })

  -- An argument with `value` behind it: whether that was used up, and what is set.
  abbrev pub next_arg :
      Arg → String → String → Options → Result (Bool × Options) (CommandError E J N)
  next_arg strategy_flag arg value o = ok (true, record o { strategy_name = value })
  next_arg events_flag arg value o =
      map_err parse_error (parse value) >>= λ n. ok (true, record o { num_events = n })
  next_arg positional arg value o = ok (false, record o { data_path = some arg })

  -- The loop over the arguments that are left.
  unfoldable pub parse_args : List String → Options → Result Options (CommandError E J N)
  unfolding arg_of
  parse_args [] o = ok o
  parse_args (arg ∷ []) o = last_arg (arg_of arg) arg o
  parse_args (arg ∷ value ∷ args) o = next_arg (arg_of arg) arg value o >>= λ (used, o').
      elim used [ true ↦ parse_args args o' | false ↦ parse_args (value ∷ args) o' ]

-- What is printed.
pub record Report (F : Type 0) : Type 0 where
  pub strategy_name : String
  pub total_trades : ℕ
  pub buy_trades : ℕ
  pub sell_trades : ℕ
  pub total_volume : F
  pub buy_notional : F
  pub realized_pnl : F
  pub return_pct : F

module _ {F : Type 0} ⦃d : Double F⦄ where
  unfoldable pub strategy_of : {E J N : Type 0} → String → Result (Strategy F) (CommandError E J N)
  unfolding PingPong.default Momentum.default
  strategy_of name =
      if str_eq name "noop"
      then ok no_op
      else if str_eq name "pingpong"
      then ok (ping_pong PingPong.default)
      else if str_eq name "momentum"
      then ok (momentum Momentum.default)
      else err (unknown_strategy name)

  -- The recorded events, or made-up ones with their snapshot.
  unfoldable pub data_of :
      {E J N : Type 0}
      → Source E J
      → Printer F
      → Config F
      → Options
      → Result (Option DepthSnapshot × List DepthUpdate) (CommandError E J N)
  unfolding load_depth_updates generate_synthetic_data
  data_of src p cfg o = elim o.data_path [
    | some path ↦ map_err load_error (load_depth_updates src path) >>= λ events. ok (none, events)
    | none ↦
        let (snap, events) = generate_synthetic_data p cfg.symbol o.num_events in
        ok (some snap, events)
  ]

  abbrev pub buy_notional_of : List (Trade F) → F
  buy_notional_of trades = sum (map (λ t. t.price ⊗ t.qty) (retain is_buy trades))

  abbrev pub return_of : F → F → F
  return_of realized_pnl buy_notional =
      if gt buy_notional zero_f then realized_pnl ⊘ buy_notional ⊗ hundred else zero_f

  unfoldable pub report_of : String → BacktestResult F → Report F
  report_of strategy_name result =
      let buy_notional = buy_notional_of result.trades in
      record {
        strategy_name = strategy_name;
        total_trades = result.total_trades;
        buy_trades = result.buy_trades;
        sell_trades = result.sell_trades;
        total_volume = result.total_volume;
        buy_notional = buy_notional;
        realized_pnl = result.realized_pnl;
        return_pct = return_of result.realized_pnl buy_notional;
      }

  -- The events with what their rounds read, from the round `i` on.
  abbrev pub rounds_from : (ℕ → ℕ × Env F) → ℕ → List DepthUpdate → List (Round F)
  rounds_from read i [] = []
  rounds_from read i (event ∷ events) =
      record { event = event; unix_ms = (read i).0; env = (read i).1 }
      ∷ rounds_from read (i + 1) events

  unfoldable pub backtester_of : Config F → Strategy F → Backtester F
  unfolding Backtest.new Risk.new
  backtester_of cfg strategy = Backtest.new cfg.symbol cfg.orderbook.depth_levels strategy (
      Risk.new cfg.risk.max_order_qty cfg.risk.min_free_balance_usdt cfg.risk.price_band_pct
        cfg.risk.max_orders_per_sec)

  -- The backtest and its report; `none` is a panic, or a sale that does not end.
  unfoldable pub backtest :
      (ℕ → ℕ × Env F)
      → Config F
      → Options
      → Strategy F
      → Option DepthSnapshot × List DepthUpdate
      → Option (Report F)
  unfolding Backtest.run backtester_of report_of
  backtest read cfg o strategy (snapshot, events) =
      Option.map (λ r. report_of o.strategy_name r.1)
        (Backtest.run (backtester_of cfg strategy) (rounds_from read 0 events) snapshot)

  abbrev pub finish :
      {E J N : Type 0}
      → (ℕ → ℕ × Env F)
      → Config F
      → Options
      → Result (Strategy F × (Option DepthSnapshot × List DepthUpdate)) (CommandError E J N)
      → Option (Result (Report F) (CommandError E J N))
  finish read cfg o (ok (strategy, loaded)) = Option.map ok (backtest read cfg o strategy loaded)
  finish read cfg o (err e) = some (err e)

  -- The data is loaded before the strategy's name is looked at.
  abbrev pub prepared :
      {E J N : Type 0}
      → Source E J
      → Printer F
      → Config F
      → Options
      → Result (Strategy F × (Option DepthSnapshot × List DepthUpdate)) (CommandError E J N)
  prepared src p cfg o =
      data_of src p cfg o >>= λ loaded. strategy_of o.strategy_name >>= λ s. ok (s, loaded)

  abbrev pub with_options :
      {E J N : Type 0}
      → Source E J
      → Printer F
      → (ℕ → ℕ × Env F)
      → Config F
      → Result Options (CommandError E J N)
      → Option (Result (Report F) (CommandError E J N))
  with_options src p read cfg (ok o) = finish read cfg o (prepared src p cfg o)
  with_options src p read cfg (err e) = some (err e)

  -- `main`, from the configuration that was loaded and the arguments behind the program's name.
  unfoldable pub main :
      {E J N : Type 0}
      → (String → Result ℕ N)
      → Source E J
      → Printer F
      → (ℕ → ℕ × Env F)
      → Result (Config F) E
      → List String
      → Option (Result (Report F) (CommandError E J N))
  unfolding parse_args strategy_of data_of backtest
  main parse src p read (ok cfg) args =
      with_options src p read cfg (parse_args parse args default_options)
  main parse src p read (err e) args = some (err (config_error e))
