-- ===== src/Diagnostics/Report.antt =====
-- `populate_diagnostics_report`.
use rmw_robotops.Base.{ℕ, ◌/◌, ◌%◌, ◌^◌, Bool, false, Option, none, some}
use rmw_robotops.Text.{Text, fill}
use rmw_robotops.Topic.{bytes}
use rmw_robotops.Queue.{size}
use rmw_robotops.Events.{blank_event}
use rmw_robotops.World.{World, check_tracing, default_trace_queue_size}
use rmw_robotops.Diagnostics.{ClockSyncInfo}
use rmw_robotops.Diagnostics.Proc.{CpuState, compute_memory_usage, compute_cpu_percent}

-- The message. `sec` is the pattern of a signed 32-bit number. `queue_utilization` are the two numbers
-- whose quotient, as `float`s, the field is, and `cpu` the two times whose quotient `cpu_percent` is,
-- `none` for 0.
pub record DiagnosticsReport : Type 0 where
  pub sec : ℕ
  pub nanosec : ℕ
  pub node_name : Text
  pub node_namespace : Text
  pub hostname : Text
  pub clock : ClockSyncInfo
  pub traces_emitted : ℕ
  pub traces_dropped : ℕ
  pub correlation_successes : ℕ
  pub correlation_failures : ℕ
  pub correlation_ambiguous : ℕ
  pub queue_utilization : ℕ × ℕ
  pub tracing_enabled : Bool
  pub auto_disabled : Bool
  pub rmw_implementation : Text
  pub related_sample_identity_supported : Bool
  pub correlation_strategy : Text
  pub memory_used_bytes : ℕ
  pub cpu : Option (ℕ × ℕ)

-- `cached_hostname`, `cached_node_name` and `cached_node_namespace`, `none` before the first report.
pub record NodeInfo : Type 0 where
  pub hostname : Text
  pub node_name : Text
  pub node_namespace : Text

-- What one report reads: the two clocks, `gethostname` (`none` if it fails), the two files of /proc,
-- `sizeof(TraceEvent)` and `get_underlying_rmw`.
pub record Surroundings : Type 0 where
  pub wall_ns : ℕ
  pub steady_ns : ℕ
  pub host : Option Text
  pub status : Option Text
  pub stat : Option Text
  pub event_size : ℕ
  pub rmw : Text

-- The variables that outlive a report.
pub record ReportState : Type 0 where
  pub node_info : Option NodeInfo
  pub cpu_state : CpuState

unfoldable pub host_text : Option Text → Text
host_text none = bytes "unknown"
host_text (some name) = fill 256 name

unfoldable pub node_info_of : Option Text → Option NodeInfo → NodeInfo
unfolding host_text
node_info_of host (some info) = info
node_info_of host none = record {
  hostname = host_text host;
  node_name = bytes "rmw_robotops";
  node_namespace = bytes "/";
}

module _ {U : Type 0} where
  unfoldable pub populate_diagnostics_report :
      Surroundings
      → ClockSyncInfo
      → ReportState
      → World U
      → DiagnosticsReport × ReportState × World U
  populate_diagnostics_report e clock s w =
      let info = node_info_of e.host s.node_info in
      let (on, w') = check_tracing w in
      let (cpu, cpu_state) = compute_cpu_percent e.steady_ns e.stat s.cpu_state in
      let next : ReportState = record { node_info = some info; cpu_state = cpu_state } in
      let report : DiagnosticsReport = record {
        sec = (e.wall_ns / 1000000000) % 2 ^ 32;
        nanosec = e.wall_ns % 1000000000;
        node_name = info.node_name;
        node_namespace = info.node_namespace;
        hostname = info.hostname;
        clock = clock;
        traces_emitted = w.health.metrics.traces_emitted;
        traces_dropped = w.health.metrics.traces_dropped;
        correlation_successes = 0;
        correlation_failures = 0;
        correlation_ambiguous = 0;
        queue_utilization =
            (size default_trace_queue_size blank_event w.events, default_trace_queue_size);
        tracing_enabled = on;
        auto_disabled = w'.health.metrics.auto_disabled;
        rmw_implementation = e.rmw;
        related_sample_identity_supported = false;
        correlation_strategy = bytes "content_hash";
        memory_used_bytes = compute_memory_usage e.event_size e.status;
        cpu = cpu;
      } in
      (report, next, w')
