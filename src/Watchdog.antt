-- ===== src/Watchdog.antt =====
-- src/watchdog.rs: the time of the last message, and the thread that wakes every five seconds. A time
-- is a reading of the clock in milliseconds of Unix time.
use rust_hft.Common.{ℕ, ◌-◌, ◌*◌, ◌%◌, ◌^◌, Bool, ltb}

pub record Watchdog : Type 0 where
  pub last_seen_ms : ℕ

unfoldable pub new : ℕ → Watchdog
new now = record { last_seen_ms = now }

unfoldable pub touch : Watchdog → ℕ → Watchdog
touch w now = record { last_seen_ms = now }

-- `timeout_secs * 1000` on a `u64`
abbrev pub timeout_ms : ℕ → ℕ
timeout_ms timeout_secs = timeout_secs * 1000 % 2 ^ 64

-- Whether a round of the thread sends `Reconnect`; the difference stops at 0, as `saturating_sub`.
abbrev pub is_silent : Watchdog → ℕ → ℕ → Bool
is_silent w timeout_secs now = ltb (timeout_ms timeout_secs) (now - w.last_seen_ms)
