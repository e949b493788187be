-- ===== src/Diagnostics.antt =====
-- What src/diagnostics_publisher.cpp finds out about the clock and about the process, and the report
-- that its thread publishes. A signed 64-bit number is its bit pattern.
pub mod Clock
pub mod Proc
pub mod Report
pub mod Thread
pub mod Spacing
pub mod Fields
pub mod Chrony
pub mod Ptp
pub mod Load
use rmw_robotops.Base.{ℕ, Bool, List}

-- The `CLOCK_SYNC_*` constants of robotops_msgs.
pub record ClockSyncMethods : Type 0 where
  pub none_method : ℕ
  pub ntp : ℕ
  pub ptp : ℕ

pub record ClockSyncInfo : Type 0 where
  pub method : ℕ
  pub estimated_skew_ns : ℕ
  pub skew_uncertainty_ns : ℕ
  pub acceptable : Bool

-- The arithmetic on floating-point numbers: `atof`, the two casts of a number of seconds times 1e9 to
-- `int64_t` and to `uint64_t`, and 0.0.
pub record Floats (F : Type 0) : Type 0 where
  pub atof : List ℕ → F
  pub to_int64_ns : F → ℕ
  pub to_uint64_ns : F → ℕ
  pub zero_seconds : F
