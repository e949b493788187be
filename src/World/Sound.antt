-- ===== src/World/Sound.antt =====
-- The invariant of the state that the calls share: both rings stay valid and the buffer of pending
-- contexts stays within its bounds.
use mathlib.Core.Path.{subst}
use rmw_robotops.Base.{sym, ◌≡◌, refl, if-intro}
use rmw_robotops.Context.{TraceContext}
use rmw_robotops.Context.Pending.{IsBounded}
use rmw_robotops.Queue.Valid.{IsValid, try_push-IsValid}
use rmw_robotops.Events.{TraceEvent, blank_event, blank_change, TraceContextChangeEvent}
use rmw_robotops.World.{
  World, Readings, default_trace_queue_size, context_change_queue_size, push_event,
  enqueue_context_change, note_failure, note_success, count_emitted, count_dropped,
}
use rmw_robotops.Endpoint.{push_pair, emit_exited, emit_entered}
use rmw_robotops.Rpc.{push_one}

pub record IsSound {U : Type 0} (w : World U) : Type 0 where
  pub events : IsValid default_trace_queue_size w.events
  pub changes : IsValid context_change_queue_size w.changes
  pub pending : IsBounded w.thread.pending

module _ {U : Type 0} (r : Readings) where
  push_event-IsSound : (e : TraceEvent) (w : World U) → IsSound w → IsSound (push_event r e w).1
  unfolding push_event
  push_event-IsSound e w s = record {
    events = try_push-IsValid default_trace_queue_size blank_event r.spurious w.events e s.events;
    changes = s.changes;
    pending = s.pending;
  }

  enqueue_context_change-IsSound :
      (e : TraceContextChangeEvent) (w : World U)
      → IsSound w
      → IsSound (enqueue_context_change r e w)
  unfolding enqueue_context_change
  enqueue_context_change-IsSound e w s = record {
    events = s.events;
    changes =
        try_push-IsValid context_change_queue_size blank_change r.spurious w.changes e s.changes;
    pending = s.pending;
  }

  -- Only the health changes.
  pub rest-IsSound :
      (w w' : World U)
      → w'.events ≡ w.events
      → w'.changes ≡ w.changes
      → w'.thread.pending ≡ w.thread.pending
      → IsSound w
      → IsSound w'
  rest-IsSound w w' e c p s = record {
    events = subst (IsValid default_trace_queue_size) (sym e) s.events;
    changes = subst (IsValid context_change_queue_size) (sym c) s.changes;
    pending = subst IsBounded (sym p) s.pending;
  }

  pub push_pair-IsSound : (a b : TraceEvent) (w : World U) → IsSound w → IsSound (push_pair r a b w)
  unfolding push_pair note_failure note_success count_emitted count_dropped
  push_pair-IsSound a b w s =
      let one = push_event-IsSound a w s in
      let w1 = (push_event r a w).1 in
      let two = push_event-IsSound b w1 one in
      let w2 = (push_event r b w1).1 in
      if-intro IsSound (push_event r a w).0 _ _
        (λ _.
          if-intro IsSound (push_event r b w1).0 _ _ (λ _. rest-IsSound w2 _ refl refl refl two)
            (λ _. rest-IsSound w2 _ refl refl refl two))
        (λ _. rest-IsSound w1 _ refl refl refl one)

  pub push_one-IsSound : (a : TraceEvent) (w : World U) → IsSound w → IsSound (push_one r a w)
  unfolding push_one note_failure note_success
  push_one-IsSound a w s =
      let one = push_event-IsSound a w s in
      let w1 = (push_event r a w).1 in
      if-intro IsSound (push_event r a w).0 _ _ (λ _. rest-IsSound w1 _ refl refl refl one)
        (λ _. rest-IsSound w1 _ refl refl refl one)

  pub emit_exited-IsSound : (e : TraceEvent) (w : World U) → IsSound w → IsSound (emit_exited r e w)
  unfolding emit_exited
  emit_exited-IsSound e w s = enqueue_context_change-IsSound _ w s

  pub emit_entered-IsSound :
      (c : TraceContext) (e : TraceEvent) (w : World U) → IsSound w → IsSound (emit_entered r c e w)
  unfolding emit_entered
  emit_entered-IsSound c e w s = enqueue_context_change-IsSound _ w s
