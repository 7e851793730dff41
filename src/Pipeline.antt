-- ===== src/Pipeline.antt =====
-- src/main.rs, the thread that maintains the book: one market event at a time through the book, the
-- strategy and the risk checks.
mod Defs
pub mod Keeps
pub mod Orders
pub mod Rounds
pub mod Safety
pub mod Exchange
unfoldable pub use Defs.*
