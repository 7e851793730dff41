-- ===== src/Ingestion.antt =====
-- src/ingestion.rs: the task that reads the exchange's stream and fetches snapshots. The socket, HTTP
-- and JSON belong to libraries: what they return comes in as an argument or as a parameter. `System`
-- holds the task's steps beside those of the other tasks.
mod Defs
pub mod Reads
pub mod Sends
unfoldable pub use Defs.*
