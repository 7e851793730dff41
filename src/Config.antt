-- ===== src/Config.antt =====
-- src/config.rs: the configuration file. TOML and its derived reader belong to libraries: they are
-- the parameter `from_str`, which gives the tables of the file with the two that may be missing.
use mathlib.Core.Option.{get_or}
use rust_hft.Common.{ℕ, Bool, Option, String, Result, ok, ◌>>=◌}
use rust_hft.Double.{Double}

pub record PaperConfig (F : Type 0) : Type 0 where
  pub initial_capital_usdt : F
  pub fee_pct : F

pub record DashboardConfig : Type 0 where
  pub port : ℕ
  pub enabled : Bool

pub record RiskConfig (F : Type 0) : Type 0 where
  pub max_order_qty : F
  pub min_free_balance_usdt : F
  pub price_band_pct : F
  pub max_orders_per_sec : ℕ

pub record OrderbookConfig : Type 0 where
  pub depth_levels : ℕ

pub record ExchangeConfig : Type 0 where
  pub ws_url : String
  pub rest_url : String

pub record WatchdogConfig : Type 0 where
  pub timeout_secs : ℕ

pub record Config (F : Type 0) : Type 0 where
  pub mode : String
  pub symbol : String
  pub strategy : String
  pub paper : PaperConfig F
  pub risk : RiskConfig F
  pub orderbook : OrderbookConfig
  pub exchange : ExchangeConfig
  pub watchdog : WatchdogConfig
  pub dashboard : DashboardConfig

-- The file as it is read: `strategy` and `paper` carry `serde(default)`, and may be left out.
pub record ConfigFile (F : Type 0) : Type 0 where
  pub mode : String
  pub symbol : String
  pub strategy : Option String
  pub paper : Option (PaperConfig F)
  pub risk : RiskConfig F
  pub orderbook : OrderbookConfig
  pub exchange : ExchangeConfig
  pub watchdog : WatchdogConfig
  pub dashboard : DashboardConfig

unfoldable pub default_strategy : String
default_strategy = "noop"

module _ {F : Type 0} ⦃d : Double F⦄ where
  unfoldable pub default_paper : PaperConfig F
  default_paper = record { initial_capital_usdt = d.lit 10_000 0; fee_pct = d.lit 2 2 }

  abbrev pub with_defaults : ConfigFile F → Config F
  with_defaults f = record {
    mode = f.mode;
    symbol = f.symbol;
    strategy = get_or f.strategy default_strategy;
    paper = get_or f.paper default_paper;
    risk = f.risk;
    orderbook = f.orderbook;
    exchange = f.exchange;
    watchdog = f.watchdog;
    dashboard = f.dashboard;
  }

  -- `read_to_string` is the file system's, `from_str` the TOML library's.
  unfoldable pub load_config :
      {E : Type 0}
      → (String → Result String E)
      → (String → Result (ConfigFile F) E)
      → String
      → Result (Config F) E
  load_config read_to_string from_str path =
      read_to_string path >>= λ content. from_str content >>= λ file. ok (with_defaults file)
