-- ===== src/Process/Shutdown.antt =====
-- What `rmw_shutdown` leaves behind.
use rmw_robotops.Base.{
  ℕ, ◌≡◌, refl, ap, ◌∙◌, Bool, true, false, Option, none, some, List, [], ◌∷◌, if◌then◌else◌, arith,
}
use rmw_robotops.Queue.Valid.{IsValid}
use rmw_robotops.Queue.Refine.{contents}
use rmw_robotops.Events.{TraceEvent, TraceContextChangeEvent, blank_event, blank_change}
use rmw_robotops.World.{
  World, Constants, default_trace_queue_size, context_change_queue_size, check_tracing,
}
use rmw_robotops.Exporter.Drain.{publisher_thread_func_lem}
use rmw_robotops.Exporter.Message.{convert_trace_event, convert_context_change}
use rmw_robotops.Diagnostics.Report.{DiagnosticsReport, ReportState, populate_diagnostics_report}
use rmw_robotops.Diagnostics.Thread.{
  Timer, Round, interval_ns, diagnostics_round, send_report, diagnostics_thread_func,
}
use rmw_robotops.Background.Settled.{IsSettled, queues, stop_publisher-queues}
use rmw_robotops.Process.{
  Platform, Process, Ending, sender, trace_event, context_change, diagnostics_report,
}
use rmw_robotops.Process.Stops.{
  finish_trace, finish_context, stop_trace_publisher, stop_trace_context_change_publisher,
  stop_diagnostics_publisher,
}
use rmw_robotops.Process.Init.{stop_publishers, rmw_shutdown}
use rmw_robotops.Process.Down.{IsDown, rmw_shutdown-IsDown}
use rmw_robotops.Process.Sound.{IsSound}

module _ {U : Type 0} where
  send_report-queues :
      (publish : Option (DiagnosticsReport → U → U)) (report : Option DiagnosticsReport)
      (w : World U)
      → queues (send_report publish report w) ≡ queues w
  unfolding send_report
  send_report-queues none none w = refl
  send_report-queues none (some r) w = refl
  send_report-queues (some f) none w = refl
  send_report-queues (some f) (some r) w = refl

drained_if {ℓ} :
    {Q B : Type ℓ} {A : Type ℓ} (f : Q → List A) (g : Q → B) (on : Bool) (after fin before : Q)
    → after ≡ (if on then fin else before)
    → f fin ≡ []
    → g fin ≡ g before
    → (f after ≡ (if on then [] else f before)) × (g after ≡ g before)
drained_if f g true after fin before e empty same = (ap f e ∙ empty, ap g e ∙ same)
drained_if f g false after fin before e empty same = (ap f e, ap g e)

if-same {ℓ} : {A : Type ℓ} (on : Bool) (x y : A) → x ≡ y → (if on then x else y) ≡ y
if-same true x y e = e
if-same false x y e = refl

module _ {U F : Type 0} (k : Constants) (e : Platform U F) where
  diagnostics_thread_func-queues :
      (publish : Option (DiagnosticsReport → U → U)) (rs : List Round) (t : Timer) (s : ReportState)
      (w : World U)
      → queues
          (diagnostics_thread_func e.floats e.methods
            (interval_ns e.config.interval_secs)
            publish
            rs
            t
            s
            w).2
        ≡ queues w
  unfolding diagnostics_thread_func diagnostics_round populate_diagnostics_report check_tracing
  diagnostics_thread_func-queues publish [] t s w = refl
  diagnostics_thread_func-queues publish (r ∷ rs) t s w =
      let (report, t', s', w') =
        diagnostics_round e.floats e.methods (interval_ns e.config.interval_secs) r t s w in
      let round : queues w' ≡ queues w = ground arith in
      diagnostics_thread_func-queues publish rs t' s' (send_report publish report w')
      ∙ send_report-queues publish report w'
      ∙ round

  abbrev events_of : World U → List TraceEvent
  events_of w = contents default_trace_queue_size blank_event w.events

  abbrev changes_of : World U → List TraceContextChangeEvent
  changes_of w = contents context_change_queue_size blank_change w.changes

  stop_trace_publisher-drains :
      (ending : Ending) (p : Process U)
      → IsSettled p.trace
      → IsValid default_trace_queue_size p.world.events
      → let p' = (stop_trace_publisher k e ending p).1 in
        (events_of p'.world ≡ (if p.trace.running then [] else events_of p.world))
        × (changes_of p'.world ≡ changes_of p.world)
  unfolding stop_trace_publisher finish_trace
  stop_trace_publisher-drains ending p s v =
      let publisher = p.trace.publisher in
      let finish = finish_trace k e ending p.loader.pointers in
      let after = stop_publisher-queues k e.calls p.loader.pointers finish p.trace p.world s in
      let drained =
        publisher_thread_func_lem default_trace_queue_size blank_event
          (convert_trace_event e.sequence_init) (sender k e trace_event p.loader.pointers publisher)
          ending.trace_rounds p.world.events p.world.outside v in
      drained_if (λ q. contents default_trace_queue_size blank_event q.0)
        (λ q. contents context_change_queue_size blank_change q.1) p.trace.running _ _
        (queues p.world) after drained.0 refl

  stop_trace_context_change_publisher-drains :
      (ending : Ending) (p : Process U)
      → IsSettled p.context
      → IsValid context_change_queue_size p.world.changes
      → let p' = (stop_trace_context_change_publisher k e ending p).1 in
        (changes_of p'.world ≡ (if p.context.running then [] else changes_of p.world))
        × (p'.world.events ≡ p.world.events)
  unfolding stop_trace_context_change_publisher finish_context
  stop_trace_context_change_publisher-drains ending p s v =
      let publisher = p.context.publisher in
      let finish = finish_context k e ending p.loader.pointers in
      let after = stop_publisher-queues k e.calls p.loader.pointers finish p.context p.world s in
      let drained =
        publisher_thread_func_lem context_change_queue_size blank_change convert_context_change
          (sender k e context_change p.loader.pointers publisher) ending.context_rounds
          p.world.changes p.world.outside v in
      drained_if (λ q. contents context_change_queue_size blank_change q.1) (λ q. q.0)
        p.context.running _ _ (queues p.world) after drained.0 refl

  stop_diagnostics_publisher-keeps :
      (ending : Ending) (p : Process U)
      → IsSettled p.diagnostics
      → queues (stop_diagnostics_publisher k e ending p).1.world ≡ queues p.world
  unfolding stop_diagnostics_publisher
  stop_diagnostics_publisher-keeps ending p s =
      let publish = sender k e diagnostics_report p.loader.pointers in
      let finish : ℕ → World U → World U = λ publisher w.
        (diagnostics_thread_func e.floats e.methods (interval_ns e.config.interval_secs)
          (publish publisher) ending.diagnostics_rounds p.timer p.report_state w).2 in
      stop_publisher-queues k e.calls p.loader.pointers finish p.diagnostics p.world s
      ∙ if-same p.diagnostics.running _ (queues p.world) (
          diagnostics_thread_func-queues (publish p.diagnostics.publisher) ending.diagnostics_rounds
            p.timer p.report_state p.world)

  stop_publishers-drains :
      (ending : Ending) (p : Process U)
      → IsSound p
      → IsValid default_trace_queue_size p.world.events
      → IsValid context_change_queue_size p.world.changes
      → let w = (stop_publishers k e ending p).world in
        (events_of w ≡ (if p.trace.running then [] else events_of p.world))
        × (changes_of w ≡ (if p.context.running then [] else changes_of p.world))
  unfolding stop_publishers stop_trace_publisher stop_trace_context_change_publisher
      stop_diagnostics_publisher
  stop_publishers-drains ending p s ve vc =
      let p1 = (stop_diagnostics_publisher k e ending p).1 in
      let p2 = (stop_trace_context_change_publisher k e ending p1).1 in
      let q1 = stop_diagnostics_publisher-keeps ending p s.diagnostics_settled in
      let vc1 : IsValid context_change_queue_size p1.world.changes = rw (ap (λ q. q.1) q1) vc in
      let q2 = stop_trace_context_change_publisher-drains ending p1 s.context_settled vc1 in
      let e2 : p2.world.events ≡ p.world.events = q2.1 ∙ ap (λ q. q.0) q1 in
      let ve2 : IsValid default_trace_queue_size p2.world.events = rw e2 ve in
      let q3 = stop_trace_publisher-drains ending p2 s.trace_settled ve2 in
      let changes =
        q3.1
        ∙ q2.0
        ∙ ap
            (λ q.
              if p.context.running then [] else contents context_change_queue_size blank_change q.1)
            q1 in
      let events =
        q3.0
        ∙ ap (λ q. if p.trace.running then [] else contents default_trace_queue_size blank_event q)
            e2 in
      (events, changes)

  rmw_shutdown-queues :
      (ending : Ending) (p : Process U)
      → queues (rmw_shutdown k e ending p).1.world ≡ queues (stop_publishers k e ending p).world
  unfolding rmw_shutdown
  rmw_shutdown-queues ending p = ground arith

  -- From a sound process with valid queues and while no producer runs, a shutdown leaves the process
  -- sound and without a background publisher, and empties each queue whose exporter was running; a
  -- queue without one keeps its events.
  pub rmw_shutdown_lem :
      (ending : Ending) (p : Process U)
      → IsSound p
      → IsValid default_trace_queue_size p.world.events
      → IsValid context_change_queue_size p.world.changes
      → let p' = (rmw_shutdown k e ending p).1 in
        IsDown p'
        × (events_of p'.world ≡ (if p.trace.running then [] else events_of p.world))
        × (changes_of p'.world ≡ (if p.context.running then [] else changes_of p.world))
  rmw_shutdown_lem ending p s ve vc =
      let left = rmw_shutdown-queues ending p in
      let drained = stop_publishers-drains ending p s ve vc in
      (
        rmw_shutdown-IsDown k e ending p s,
        ap (λ q. contents default_trace_queue_size blank_event q.0) left ∙ drained.0,
        ap (λ q. contents context_change_queue_size blank_change q.1) left ∙ drained.1,
      )
