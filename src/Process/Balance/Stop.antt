-- ===== src/Process/Balance/Stop.antt =====
-- What the stops of a process destroy.
use rmw_robotops.Base.{
  ℕ, ◌≡◌, refl, ap, ◌∙◌, true, false, not, ◌&&◌, ◌||◌, Option, none, some, List, [], ◌∷◌, ◌==◌,
  arith, Bool-cases, inl, inr, if-intro,
}
use rmw_robotops.Text.{same_text}
use rmw_robotops.World.{
  World, Constants, check_tracing, default_trace_queue_size, context_change_queue_size,
}
use rmw_robotops.Events.{blank_event, blank_change}
use rmw_robotops.Exporter.Message.{convert_trace_event, convert_context_change}
use rmw_robotops.Exporter.Frame.{Keeps, publisher_thread_func-keeps}
use rmw_robotops.Diagnostics.Report.{DiagnosticsReport, ReportState, populate_diagnostics_report}
use rmw_robotops.Diagnostics.Thread.{
  Timer, Round, interval_ns, diagnostics_round, send_report, diagnostics_thread_func,
}
use rmw_robotops.Background.{
  Background, Pointers, stop_publisher, destroy_node_name, destroy_publisher_name,
}
use rmw_robotops.Background.Settled.{IsSettled, stop_publisher-stopped}
use rmw_robotops.Background.Ledger.{Counts, Accounts, stop_publisher-Accounts}
use rmw_robotops.Loader.{Loader, publish_name}
use rmw_robotops.Loader.Complete.{IsComplete, listed, pointer_set}
use rmw_robotops.Process.{
  Platform, Process, Ending, Outgoing, sender, trace_event, context_change, diagnostics_report,
}
use rmw_robotops.Process.Stops.{
  finish_trace, finish_context, stop_trace_publisher, stop_trace_context_change_publisher,
  stop_diagnostics_publisher,
}
use rmw_robotops.Process.Sound.{IsSound}
use rmw_robotops.Process.Balance.{Quiet, Balanced}

module _ {U F : Type 0} (k : Constants) (e : Platform U F) (created destroyed : U → ℕ)
    (counts : Counts e.calls created destroyed) (quiet : Quiet e created destroyed) where
  -- The two counts.
  abbrev ledger : U → ℕ × ℕ
  ledger u = (created u, destroyed u)

  sender-Keeps :
      {M : Type 0} (wrap : M → Outgoing) (p : Pointers) (publisher : ℕ)
      → Keeps ledger (sender k e wrap p publisher)
  unfolding sender Keeps
  sender-Keeps {M} wrap p publisher =
      if-intro (λ (o : Option (M → U → U)). Keeps ledger o)
        (not (publisher == 0) && not (p publish_name == 0))
        (some (λ msg. e.publish (p publish_name) publisher (wrap msg))) none
        (λ there m u.
          let q = quiet.publish_quiet (p publish_name) publisher (wrap m) u in λ i. (q.0 i, q.1 i))
        (λ missing. tt)

  -- A thread that keeps both counts up to its end.
  abbrev IsQuiet : (ℕ → World U → World U) → ℕ → World U → Type 0
  IsQuiet finish publisher w = ledger (finish publisher w).outside ≡ ledger w.outside

  stops_account :
      (l : Loader) (finish : ℕ → World U → World U) (b : Background) (w : World U)
      → IsQuiet finish b.publisher w
      → IsComplete l
      → IsSettled b
      → (not (l.lib == 0) || not b.running) ≡ true
      → let (ret, b', w') = stop_publisher k e.calls l.pointers finish b w in
        Accounts created destroyed b w b' w'
  unfolding listed same_text
  stops_account l finish b w still complete s needs = elim (Bool-cases b.running) [
    | inl on ↦
        (let open_lib : (l.lib == 0) ≡ false = ground (arith, needs, on) in
          stop_publisher-Accounts k e.calls l.pointers created destroyed counts
            (pointer_set l destroy_node_name complete open_lib refl)
            (pointer_set l destroy_publisher_name complete open_lib refl) finish b w
            (ap (λ n. n.0) still) (ap (λ n. n.1) still) s)
    | inr off ↦ rw (stop_publisher-stopped k e.calls l.pointers finish b w off) (omega arith)
  ]

  send_report-quiet :
      (publish : Option (DiagnosticsReport → U → U)) (report : Option DiagnosticsReport)
      (w : World U)
      → Keeps ledger publish
      → ledger (send_report publish report w).outside ≡ ledger w.outside
  unfolding send_report Keeps
  send_report-quiet none none w h = refl
  send_report-quiet none (some r) w h = refl
  send_report-quiet (some f) none w h = refl
  send_report-quiet (some f) (some r) w h = h r w.outside

  diagnostics_thread_func-quiet :
      (publish : Option (DiagnosticsReport → U → U)) (rs : List Round) (t : Timer) (s : ReportState)
      (w : World U)
      → Keeps ledger publish
      → ledger
          (diagnostics_thread_func e.floats e.methods
            (interval_ns e.config.interval_secs)
            publish
            rs
            t
            s
            w).2.outside
        ≡ ledger w.outside
  unfolding diagnostics_thread_func diagnostics_round populate_diagnostics_report check_tracing
  diagnostics_thread_func-quiet publish [] t s w h = refl
  diagnostics_thread_func-quiet publish (r ∷ rs) t s w h =
      let (report, t', s', w') =
        diagnostics_round e.floats e.methods (interval_ns e.config.interval_secs) r t s w in
      let round : ledger w'.outside ≡ ledger w.outside = ap ledger (ground arith) in
      diagnostics_thread_func-quiet publish rs t' s' (send_report publish report w') h
      ∙ send_report-quiet publish report w' h
      ∙ round

  pub stop_trace_publisher-Balanced :
      (ending : Ending) (p : Process U)
      → IsSound p
      → Balanced created destroyed p (stop_trace_publisher k e ending p).1
  unfolding stop_trace_publisher finish_trace
  stop_trace_publisher-Balanced ending p s =
      let publisher = p.trace.publisher in
      let l = p.loader in
      let send = sender k e trace_event l.pointers publisher in
      let still =
        publisher_thread_func-keeps default_trace_queue_size blank_event
          (convert_trace_event e.sequence_init) send ledger
          (sender-Keeps trace_event l.pointers publisher) ending.trace_rounds p.world.events
          p.world.outside in
      let account =
        stops_account l (finish_trace k e ending l.pointers) p.trace p.world still s.complete
          s.trace_settled (ground (arith, s.needs_library)) in
      omega arith

  pub stop_trace_context_change_publisher-Balanced :
      (ending : Ending) (p : Process U)
      → IsSound p
      → Balanced created destroyed p (stop_trace_context_change_publisher k e ending p).1
  unfolding stop_trace_context_change_publisher finish_context
  stop_trace_context_change_publisher-Balanced ending p s =
      let publisher = p.context.publisher in
      let l = p.loader in
      let still =
        publisher_thread_func-keeps context_change_queue_size blank_change convert_context_change
          (sender k e context_change l.pointers publisher) ledger
          (sender-Keeps context_change l.pointers publisher) ending.context_rounds p.world.changes
          p.world.outside in
      let account =
        stops_account l (finish_context k e ending l.pointers) p.context p.world still s.complete
          s.context_settled (ground (arith, s.needs_library)) in
      omega arith

  pub stop_diagnostics_publisher-Balanced :
      (ending : Ending) (p : Process U)
      → IsSound p
      → Balanced created destroyed p (stop_diagnostics_publisher k e ending p).1
  unfolding stop_diagnostics_publisher
  stop_diagnostics_publisher-Balanced ending p s =
      let l = p.loader in
      let publish = sender k e diagnostics_report l.pointers in
      let finish : ℕ → World U → World U = λ publisher w.
        (diagnostics_thread_func e.floats e.methods (interval_ns e.config.interval_secs)
          (publish publisher) ending.diagnostics_rounds p.timer p.report_state w).2 in
      let still =
        diagnostics_thread_func-quiet (publish p.diagnostics.publisher) ending.diagnostics_rounds
          p.timer p.report_state p.world
          (sender-Keeps diagnostics_report l.pointers p.diagnostics.publisher) in
      let account =
        stops_account l finish p.diagnostics p.world still s.complete s.diagnostics_settled
          (ground (arith, s.needs_library)) in
      omega arith
