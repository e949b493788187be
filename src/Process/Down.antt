-- ===== src/Process/Down.antt =====
-- That the stops and `rmw_shutdown` take every background publisher down.
use rmw_robotops.Base.{
  ℕ, ◌≡◌, refl, ap, ◌∙◌, true, false, not, ◌||◌, ◌==◌, arith, Bool-cases, inl, inr, if-intro,
}
use rmw_robotops.Text.{same_text}
use rmw_robotops.World.{World, Constants}
use rmw_robotops.Background.{
  Background, idle, stop_publisher, destroy_node_name, destroy_publisher_name,
}
use rmw_robotops.Background.Settled.{
  IsSettled, idle-IsSettled, stopped_idle, stop_publisher_lem, stop_publisher-stopped,
}
use rmw_robotops.Loader.{Loader, shutdown_name}
use rmw_robotops.Loader.Complete.{IsComplete, listed, pointer_set}
use rmw_robotops.Process.{Platform, Process, Ending}
use rmw_robotops.Process.Stops.{
  stop_trace_publisher, stop_trace_context_change_publisher, stop_diagnostics_publisher,
}
use rmw_robotops.Process.Init.{stop_publishers, rmw_shutdown}
use rmw_robotops.Process.Sound.{IsSound, any_running}

-- Sound, and without a background publisher.
abbrev pub IsDown : {U : Type 0} → Process U → Type 0
IsDown p = IsSound p × (p.trace ≡ idle) × (p.context ≡ idle) × (p.diagnostics ≡ idle)

module _ {U F : Type 0} (k : Constants) (e : Platform U F) where
  -- A settled publisher that runs only while the library is open is gone after a stop.
  stop_publisher-idle :
      (l : Loader) (finish : ℕ → World U → World U) (b : Background) (w : World U)
      → IsComplete l
      → IsSettled b
      → (not (l.lib == 0) || not b.running) ≡ true
      → (stop_publisher k e.calls l.pointers finish b w).1 ≡ idle
  unfolding listed same_text
  stop_publisher-idle l finish b w complete s needs = elim (Bool-cases b.running) [
    | inl on ↦
        (let open_lib : (l.lib == 0) ≡ false = ground (arith, needs, on) in
          (stop_publisher_lem k e.calls l.pointers
            (pointer_set l destroy_node_name complete open_lib refl)
            (pointer_set l destroy_publisher_name complete open_lib refl) finish b w s).1)
    | inr off ↦
        ap (λ r. r.1) (stop_publisher-stopped k e.calls l.pointers finish b w off)
        ∙ stopped_idle b s off
  ]

  stop_diagnostics_publisher-idle :
      (ending : Ending) (p : Process U)
      → IsSound p
      → (stop_diagnostics_publisher k e ending p).1.diagnostics ≡ idle
  unfolding stop_diagnostics_publisher
  stop_diagnostics_publisher-idle ending p s =
      stop_publisher-idle p.loader _ p.diagnostics p.world s.complete s.diagnostics_settled
        (ground (arith, s.needs_library))

  none_running :
      (p : Process U)
      → p.trace ≡ idle
      → p.context ≡ idle
      → p.diagnostics ≡ idle
      → (not (p.loader.lib == 0) || not (any_running p)) ≡ true
  none_running p t c d = rw (t, c, d) (ground arith)

  pub stop_diagnostics_publisher-IsSound :
      (ending : Ending) (p : Process U)
      → IsSound p
      → IsSound (stop_diagnostics_publisher k e ending p).1
  unfolding stop_diagnostics_publisher
  stop_diagnostics_publisher-IsSound ending p s =
      let p' = (stop_diagnostics_publisher k e ending p).1 in
      let d : p'.diagnostics ≡ idle = stop_diagnostics_publisher-idle ending p s in
      record {
        complete = s.complete;
        trace_settled = s.trace_settled;
        context_settled = s.context_settled;
        diagnostics_settled = rw d idle-IsSettled;
        needs_library = rw d (ground (arith, s.needs_library));
      }

  stop_trace_context_change_publisher-idle :
      (ending : Ending) (p : Process U)
      → IsSound p
      → (stop_trace_context_change_publisher k e ending p).1.context ≡ idle
  unfolding stop_trace_context_change_publisher
  stop_trace_context_change_publisher-idle ending p s =
      stop_publisher-idle p.loader _ p.context p.world s.complete s.context_settled
        (ground (arith, s.needs_library))

  pub stop_trace_context_change_publisher-IsSound :
      (ending : Ending) (p : Process U)
      → IsSound p
      → IsSound (stop_trace_context_change_publisher k e ending p).1
  unfolding stop_trace_context_change_publisher
  stop_trace_context_change_publisher-IsSound ending p s =
      let p' = (stop_trace_context_change_publisher k e ending p).1 in
      let c : p'.context ≡ idle = stop_trace_context_change_publisher-idle ending p s in
      record {
        complete = s.complete;
        trace_settled = s.trace_settled;
        context_settled = rw c idle-IsSettled;
        diagnostics_settled = s.diagnostics_settled;
        needs_library = rw c (ground (arith, s.needs_library));
      }

  stop_trace_publisher-idle :
      (ending : Ending) (p : Process U)
      → IsSound p
      → (stop_trace_publisher k e ending p).1.trace ≡ idle
  unfolding stop_trace_publisher
  stop_trace_publisher-idle ending p s =
      stop_publisher-idle p.loader _ p.trace p.world s.complete s.trace_settled
        (ground (arith, s.needs_library))

  stop_publishers-IsDown :
      (ending : Ending) (p : Process U) → IsSound p → IsDown (stop_publishers k e ending p)
  unfolding stop_publishers stop_trace_publisher stop_trace_context_change_publisher
      stop_diagnostics_publisher
  stop_publishers-IsDown ending p s =
      let p1 = (stop_diagnostics_publisher k e ending p).1 in
      let s1 = stop_diagnostics_publisher-IsSound ending p s in
      let p2 = (stop_trace_context_change_publisher k e ending p1).1 in
      let s2 = stop_trace_context_change_publisher-IsSound ending p1 s1 in
      let p3 = (stop_trace_publisher k e ending p2).1 in
      let d : p3.diagnostics ≡ idle = stop_diagnostics_publisher-idle ending p s in
      let c : p3.context ≡ idle = stop_trace_context_change_publisher-idle ending p1 s1 in
      let t : p3.trace ≡ idle = stop_trace_publisher-idle ending p2 s2 in
      let sound : IsSound p3 = record {
        complete = s.complete;
        trace_settled = rw t idle-IsSettled;
        context_settled = rw c idle-IsSettled;
        diagnostics_settled = rw d idle-IsSettled;
        needs_library = none_running p3 t c d;
      } in
      (sound, t, c, d)

  pub rmw_shutdown-IsDown :
      (ending : Ending) (p : Process U) → IsSound p → IsDown (rmw_shutdown k e ending p).1
  unfolding rmw_shutdown
  rmw_shutdown-IsDown ending p s =
      let down = stop_publishers-IsDown ending p s in
      let p' = stop_publishers k e ending p in
      let address = p'.loader.pointers shutdown_name in
      let (ret, u) = e.shutdown address p'.world.outside in
      let after : Process U = record p' { world = record (p'.world) { outside = u } } in
      let sound : IsSound after = record {
        complete = down.0.complete;
        trace_settled = down.0.trace_settled;
        context_settled = down.0.context_settled;
        diagnostics_settled = down.0.diagnostics_settled;
        needs_library = down.0.needs_library;
      } in
      if-intro (λ (r : ℕ × Process U). IsDown r.1) (address == 0) (k.ret_error, p') (ret, after)
        (λ null. down) (λ set. (sound, down.1, down.2, down.3))
