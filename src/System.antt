-- ===== src/System.antt =====
-- The tasks of src/main.rs and src/ingestion.rs side by side: the thread of `Pipeline`, the socket, the
-- fetches of snapshots, the pollers for a resync, the watchdog, the kill switch, the executor and the
-- dashboard's sampler. A schedule is a list of actions, in any order.
mod Defs
pub mod Steps
pub mod Resync
pub mod Recovery
pub mod Liveness
pub mod Stuck
pub mod Market
pub mod Switch
pub mod Ledger
pub mod Booking
pub mod Turns
pub mod Conservation
pub mod Positions
pub mod Messages
pub mod Mirror
pub mod Convergence
unfoldable pub use Defs.*
