-- ===== src/Process/Stops.antt =====
-- The stops of the three background publishers, with what their threads do up to their end.
use rmw_robotops.Base.{ℕ, ◌&&◌, if◌then◌else◌}
use rmw_robotops.Config.{get_diagnostics_interval_secs}
use rmw_robotops.World.{World, Constants}
use rmw_robotops.Exporter.Message.{trace_thread, context_change_thread_func}
use rmw_robotops.Diagnostics.Report.{ReportState}
use rmw_robotops.Diagnostics.Thread.{Timer, interval_ns, diagnostics_thread_func}
use rmw_robotops.Background.{Pointers, stop_publisher}
use rmw_robotops.Process.{
  Platform, Process, Ending, sender, trace_event, context_change, diagnostics_report,
}

module _ {U F : Type 0} (k : Constants) (e : Platform U F) where
  -- What the thread of the trace publisher does up to its end, and that of the context changes.
  unfoldable pub finish_trace : Ending → Pointers → ℕ → World U → World U
  finish_trace ending pointers publisher w =
      let (q, u) =
        trace_thread e.sequence_init (sender k e trace_event pointers publisher) ending.trace_rounds
          w.events w.outside in
      record w { events = q; outside = u }

  unfoldable pub finish_context : Ending → Pointers → ℕ → World U → World U
  finish_context ending pointers publisher w =
      let (q, u) =
        context_change_thread_func (sender k e context_change pointers publisher)
          ending.context_rounds w.changes w.outside in
      record w { changes = q; outside = u }

  abbrev pub finish_diagnostics :
      Ending → Pointers → ℕ → Timer → ReportState → World U → Timer × ReportState × World U
  finish_diagnostics ending pointers publisher =
      diagnostics_thread_func e.floats e.methods
        (interval_ns (get_diagnostics_interval_secs e.config))
        (sender k e diagnostics_report pointers publisher) ending.diagnostics_rounds

  unfoldable pub stop_trace_publisher : Ending → Process U → ℕ × Process U
  stop_trace_publisher ending p =
      let (ret, b, w) =
        stop_publisher k e.calls p.loader.pointers (finish_trace ending p.loader.pointers) p.trace
          p.world in
      (ret, record p { trace = b; world = w })

  unfoldable pub stop_trace_context_change_publisher : Ending → Process U → ℕ × Process U
  stop_trace_context_change_publisher ending p =
      let (ret, b, w) =
        stop_publisher k e.calls p.loader.pointers (finish_context ending p.loader.pointers)
          p.context p.world in
      (ret, record p { context = b; world = w })

  -- The thread leaves the variables behind that are not its own.
  unfoldable pub stop_diagnostics_publisher : Ending → Process U → ℕ × Process U
  stop_diagnostics_publisher ending p =
      let finish : ℕ → World U → Timer × ReportState × World U = λ publisher w.
        finish_diagnostics ending p.loader.pointers publisher p.timer p.report_state w in
      let (ret, b, w) =
        stop_publisher k e.calls p.loader.pointers (λ publisher v. (finish publisher v).2)
          p.diagnostics p.world in
      let left = (finish p.diagnostics.publisher p.world).1 in
      let joined = p.diagnostics.running && p.diagnostics.thread in
      (
        ret,
        record p {
          diagnostics = b;
          world = w;
          report_state = if joined then left else p.report_state;
        },
      )
