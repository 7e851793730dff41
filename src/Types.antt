-- ===== src/Types.antt =====
-- src/types.rs: the messages that the parts of the program exchange. `F` stands for `f64`; a Unix time
-- is a number of milliseconds.
use rust_hft.Common.{ℕ, Bool, List, String}

pub record DepthUpdate : Type 0 where
  pub event_type : String
  pub event_time : ℕ
  pub symbol : String
  pub first_update_id : ℕ
  pub last_update_id : ℕ
  pub prev_last_update_id : ℕ
  pub bids : List (String × String)
  pub asks : List (String × String)

pub record Trade : Type 0 where
  pub event_type : String
  pub event_time : ℕ
  pub symbol : String
  pub price : String
  pub qty : String
  pub is_buyer_maker : Bool

pub record DepthSnapshot : Type 0 where
  pub last_update_id : ℕ
  pub bids : List (String × String)
  pub asks : List (String × String)

pub data MarketEvent : Type 0 where
  depth_update : DepthUpdate → MarketEvent
  depth_snapshot : DepthSnapshot → MarketEvent
  trade : Trade → MarketEvent
  reconnect : MarketEvent

pub record OrderbookSnapshot (F : Type 0) : Type 0 where
  pub symbol : String
  pub bids : List (F × F)
  pub asks : List (F × F)
  pub timestamp_ms : ℕ

pub data Signal (F : Type 0) : Type 0 where
  buy : F → F → Signal F
  sell : F → F → Signal F
  hold : Signal F

pub record ValidatedOrder (F : Type 0) : Type 0 where
  pub signal : Signal F
  pub client_order_id : String
