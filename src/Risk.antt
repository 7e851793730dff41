-- ===== src/Risk.antt =====
-- src/risk.rs: the checks that every order passes before it is sent. What a call reads from outside
-- (the kill-switch flag, the balance that the paper account mirrors, the clock, a new UUID) comes in
-- an `Env`. Log lines are left out, and so is the warning threshold that only they use.
mod Defs
pub mod Gates
pub mod SeenIds
pub mod RateLimit
unfoldable pub use Defs.*
