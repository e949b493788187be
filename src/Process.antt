-- ===== src/Process.antt =====
-- src/rmw_init.cpp and src/rmw_node.cpp with the three background publishers behind them: what
-- outlives a call of the middleware, and the calls that bring it up and down.
pub mod Stops
pub mod Init
pub mod Options
pub mod Sound
pub mod Down
pub mod Shutdown
pub mod Flush
pub mod Balance
use rmw_robotops.Base.{
  ℕ, Bool, true, false, ◌&&◌, not, Option, none, some, List, [], ◌∷◌, ◌==◌, if◌then◌else◌,
}
use rmw_robotops.Base.Returns.{◌>>=◌}
use rmw_robotops.Text.{Text}
use rmw_robotops.Topic.{bytes}
use rmw_robotops.Config.{Config, is_diagnostics_enabled, get_diagnostics_interval_secs}
use rmw_robotops.World.{World, Constants, check_tracing}
use rmw_robotops.Exporter.Message.{
  TraceMessage, TraceContextChange, trace_thread, context_change_thread_func,
}
use rmw_robotops.Diagnostics.{ClockSyncMethods, Floats}
use rmw_robotops.Diagnostics.Clock.{ClockSources}
use rmw_robotops.Diagnostics.Report.{DiagnosticsReport, ReportState}
use rmw_robotops.Diagnostics.Thread.{
  Timer, Round, interval_ns, start_timer, diagnostics_thread_func,
}
use rmw_robotops.Background.{
  Background, Kind, Calls, Pointers, start_publisher, stop_publisher, create_node_name,
  destroy_node_name, robotops_namespace,
}
use rmw_robotops.Loader.{
  Linker, Loader, load_underlying_rmw, publish_name, init_name, shutdown_name,
}

-- The messages that go through the one function to publish.
pub data Outgoing : Type 0 where
  trace_event : TraceMessage → Outgoing
  context_change : TraceContextChange → Outgoing
  diagnostics_report : DiagnosticsReport → Outgoing

-- The machine and the configuration: the linker, the code behind the addresses, whether the message
-- package has the three type supports, whether a sequence of so many strings can be allocated,
-- and the configuration that was loaded.
pub record Platform (U F : Type 0) : Type 0 where
  pub linker : Linker U
  pub calls : Calls U
  pub publish : ℕ → ℕ → Outgoing → U → U
  pub init : ℕ → U → ℕ × U
  pub shutdown : ℕ → U → ℕ × U
  pub trace_event_support : Bool
  pub context_change_support : Bool
  pub report_support : Bool
  pub sequence_init : ℕ → Bool
  pub config : Config
  pub floats : Floats F
  pub methods : ClockSyncMethods

pub record Process (U : Type 0) : Type 0 where
  pub world : World U
  pub loader : Loader
  pub trace : Background
  pub context : Background
  pub diagnostics : Background
  pub timer : Timer
  pub report_state : ReportState

-- What the starts run into: which of the three threads can be created, and what the thread of the
-- diagnostics reads at its beginning.
pub record Launch : Type 0 where
  pub trace_starts : Bool
  pub context_starts : Bool
  pub diagnostics_starts : Bool
  pub now : ℕ
  pub sources : ClockSources

-- What the threads still do before they see the flag: rounds of the two exporters, and rounds of the
-- diagnostics with what they read.
pub record Ending : Type 0 where
  pub trace_rounds : ℕ
  pub context_rounds : ℕ
  pub diagnostics_rounds : List Round

module _ {U F : Type 0} (k : Constants) (e : Platform U F) where
  abbrev pub trace_kind : Kind
  trace_kind = record {
    node_name = bytes "rmw_robotops_tracer";
    topic = bytes "/robotops/trace_events";
    depth = 100;
    type_support = e.trace_event_support;
  }

  abbrev pub context_kind : Kind
  context_kind = record {
    node_name = bytes "rmw_robotops_context_change";
    topic = bytes "/robotops/trace_context";
    depth = 50;
    type_support = e.context_change_support;
  }

  abbrev pub diagnostics_kind : Kind
  diagnostics_kind = record {
    node_name = bytes "rmw_robotops_diagnostics";
    topic = bytes "/robotops/diagnostics";
    depth = 10;
    type_support = e.report_support;
  }

  abbrev pub check_diagnostics : World U → Bool × World U
  check_diagnostics w = (is_diagnostics_enabled e.config, w)

  -- The call that a thread makes: only if its publisher and the function are there.
  unfoldable pub sender : {M : Type 0} → (M → Outgoing) → Pointers → ℕ → Option (M → U → U)
  sender wrap p publisher =
      if not (publisher == 0) && not (p publish_name == 0)
      then some (λ msg. e.publish (p publish_name) publisher (wrap msg))
      else none

  unfoldable pub start_trace_publisher : Launch → Process U → Option (ℕ × Process U)
  start_trace_publisher launch p = do
    (ret, b, w) ←
        start_publisher k e.calls p.loader.pointers trace_kind check_tracing launch.trace_starts
          p.trace p.world
    some (ret, record p { trace = b; world = w })

  unfoldable pub start_trace_context_change_publisher : Launch → Process U → Option (ℕ × Process U)
  start_trace_context_change_publisher launch p = do
    (ret, b, w) ←
        start_publisher k e.calls p.loader.pointers context_kind check_tracing launch.context_starts
          p.context p.world
    some (ret, record p { context = b; world = w })

  -- A new thread has new local variables.
  unfoldable pub start_diagnostics_publisher : Launch → Process U → Option (ℕ × Process U)
  start_diagnostics_publisher launch p = do
    (ret, b, w) ←
        start_publisher k e.calls p.loader.pointers diagnostics_kind check_diagnostics
          launch.diagnostics_starts p.diagnostics p.world
    let fresh =
        start_timer e.floats e.methods (interval_ns (get_diagnostics_interval_secs e.config))
          launch.now launch.sources
    let timer = if not p.diagnostics.running && b.running then fresh else p.timer
    some (ret, record p { diagnostics = b; world = w; timer = timer })
