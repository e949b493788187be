-- ===== src/State.antt =====
-- include/rmw_robotops/config.hpp, the end of src/config.cpp and
-- include/rmw_robotops/diagnostics_metrics.hpp: the runtime switch of the tracer and its counters.
pub mod Switch
use rmw_robotops.Base.{ℕ, ◌+◌, ◌%◌, ◌^◌, Bool, true, false, ltb, leb, if◌then◌else◌, not}
use rmw_robotops.Config.{Config}

-- `TracingState`. `consecutive_failures` is a `uint32_t`.
pub record TracingState : Type 0 where
  pub enabled : Bool
  pub consecutive_failures : ℕ
  pub failure_threshold : ℕ

-- `DiagnosticsMetrics`. The counters are `uint64_t`.
pub record Metrics : Type 0 where
  pub traces_emitted : ℕ
  pub traces_dropped : ℕ
  pub auto_disabled : Bool

-- The two singletons.
pub record Health : Type 0 where
  pub state : TracingState
  pub metrics : Metrics

pub initial_health : Config → Health
initial_health config = record {
  state = record {
    enabled = config.enabled;
    consecutive_failures = 0;
    failure_threshold = config.failure_threshold;
  };
  metrics = record { traces_emitted = 0; traces_dropped = 0; auto_disabled = false };
}

unfoldable pub is_tracing_enabled : TracingState → Bool × TracingState
is_tracing_enabled s =
    if not s.enabled
    then (false, s)
    else (if leb s.failure_threshold s.consecutive_failures
        then (false, record s { enabled = false })
        else (true, s))

unfoldable pub mark_auto_disabled : Metrics → Metrics
mark_auto_disabled m = record m { auto_disabled = true }

-- `fetch_add` wraps.
unfoldable pub record_trace_failure : Health → Health
unfolding mark_auto_disabled
record_trace_failure h =
    let failures = (h.state.consecutive_failures + 1) % 2 ^ 32 in
    let counted = record (h.state) { consecutive_failures = failures } in
    if ltb counted.failure_threshold failures
    then record {
      state = record counted { enabled = false };
      metrics = mark_auto_disabled h.metrics;
    }
    else record h { state = counted }

unfoldable pub record_trace_success : Health → Health
record_trace_success h = record h { state = record (h.state) { consecutive_failures = 0 } }

unfoldable pub increment_traces_emitted : Health → Health
increment_traces_emitted h = record h {
  metrics = record (h.metrics) { traces_emitted = (h.metrics.traces_emitted + 1) % 2 ^ 64 };
}

unfoldable pub increment_traces_dropped : Health → Health
increment_traces_dropped h = record h {
  metrics = record (h.metrics) { traces_dropped = (h.metrics.traces_dropped + 1) % 2 ^ 64 };
}
