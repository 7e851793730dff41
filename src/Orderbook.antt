-- ===== src/Orderbook.antt =====
-- src/orderbook.rs: the order book and its synchronisation with the exchange's stream of updates.
-- A method takes the book and returns the new one beside its result. The flag `resync_needed`, an
-- atomic shared with the ingestion task, is passed in and returned. Log lines are left out.
mod Defs
pub mod Levels
pub mod Validity
pub mod Updates
pub mod Sync
pub mod Stream
pub mod Sequence
pub mod Snapshots
pub mod Depth
pub mod Exchange
pub mod Shape
unfoldable pub use Defs.*
