-- ===== src/Metrics.antt =====
-- src/metrics.rs: the tracker of latencies. An `Instant` counts nanoseconds; `now` is its reading.
use rust_hft.Common.{ℕ, ◌-◌, ◌/◌, String}

pub record LatencyTracker : Type 0 where
  pub label : String
  pub started : ℕ

-- What `record` logs.
pub record Latency : Type 0 where
  pub label : String
  pub latency_us : ℕ

unfoldable pub start_tracker : String → ℕ → LatencyTracker
start_tracker label now = record { label = label; started = now }

-- `record`: the whole microseconds since the start.
unfoldable pub record_latency : LatencyTracker → ℕ → Latency
record_latency t now = record { label = t.label; latency_us = (now - t.started) / 1000 }
