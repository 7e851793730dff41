-- ===== src/Pipeline/Exchange.antt =====
-- The thread's book against the exchange's own, over one event.
use rust_hft.Double.{Double}
use rust_hft.Types.{MarketEvent, depth_update, depth_snapshot, trade, reconnect}
use rust_hft.Orderbook.Exchange.{
  Exchange, Reports, Shows, InSync, reset-InSync, handle_update-InSync, handle_snapshot-InSync,
}
use rust_hft.Pipeline.Defs.{Pipeline}
use rust_hft.Pipeline.Rounds.{book_after}

module _ {F : Type 0} ⦃d : Double F⦄ (x : Exchange F) where
  -- An update that reports the exchange's state, or a snapshot that shows it.
  abbrev pub IsHonest : MarketEvent → Type 0
  IsHonest (depth_update update) = Reports x update
  IsHonest (depth_snapshot snap) = Shows x snap
  IsHonest (trade t) = Unit
  IsHonest reconnect = Unit

  pub book_after-InSync :
      (p : Pipeline F) (event : MarketEvent)
      → IsHonest event
      → InSync x p.book
      → InSync x (book_after p event)
  book_after-InSync p (depth_update update) r h =
      handle_update-InSync x p.book update p.resync_needed r h
  book_after-InSync p (depth_snapshot snap) s h = handle_snapshot-InSync x p.book snap s h
  book_after-InSync p (trade t) u h = h
  book_after-InSync p reconnect u h = reset-InSync x p.book
