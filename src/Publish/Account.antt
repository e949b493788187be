-- ===== src/Publish/Account.antt =====
-- How the two events of a message fare in the queue, and how they are counted.
use rmw_robotops.Base.{
  ltb, if◌then◌else◌, ◌==◌, Bool-cases, inl, inr, append-nil, ℕ, ◌+◌, ◌%◌, ◌^◌, ◌<◌, ◌≡◌, refl, ap,
  ◌∙◌, Bool, true, false, List, [], ◌∷◌, ◌++◌, length, arith, append_assoc, length-append,
}
use rmw_robotops.Queue.Fifo as Fifo
use rmw_robotops.Queue.Valid.{IsValid, try_push-IsValid}
use rmw_robotops.Queue.Refine.{contents, length-contents, size_facts, try_push_refines}
use rmw_robotops.State.{
  record_trace_failure, record_trace_success, increment_traces_emitted, increment_traces_dropped,
}
use rmw_robotops.Events.{TraceEvent, blank_event}
use rmw_robotops.Endpoint.{push_pair}
use rmw_robotops.World.{
  World, Readings, default_trace_queue_size, push_event, note_failure, note_success, count_emitted,
  count_dropped,
}

-- The events that wait for the exporter, oldest first.
abbrev pub queued : {U : Type 0} → World U → List TraceEvent
queued w = contents default_trace_queue_size blank_event w.events

module _ {U : Type 0} (r : Readings) (i : ℕ) (early : i < 100) (sound : r.spurious i ≡ false) where
  -- One event: it goes behind the others if there is room.
  pub push_event_lem :
      (event : TraceEvent) (w : World U)
      → IsValid default_trace_queue_size w.events
      → let (done, w') = push_event r event w in
        ((done, queued w') ≡ Fifo.enqueue default_trace_queue_size (queued w) event)
        × IsValid default_trace_queue_size w'.events
  unfolding push_event
  push_event_lem event w v = (
    try_push_refines default_trace_queue_size blank_event r.spurious i w.events event v early sound,
    try_push-IsValid default_trace_queue_size blank_event r.spurious w.events event v,
  )

  push_event_room :
      (event : TraceEvent) (w : World U)
      → IsValid default_trace_queue_size w.events
      → length (queued w) < 1023
      → let (done, w') = push_event r event w in
        ◌≡◌ {A = Bool × List TraceEvent} (done, queued w') (true, queued w ++ event ∷ [])
  push_event_room event w v room =
      (push_event_lem event w v).0 ∙ Fifo.enqueue_room 1024 (queued w) event (λ e. omega arith)

  push_event_full :
      (event : TraceEvent) (w : World U)
      → IsValid default_trace_queue_size w.events
      → length (queued w) ≡ 1023
      → let (done, w') = push_event r event w in
        ◌≡◌ {A = Bool × List TraceEvent} (done, queued w') (false, queued w)
  push_event_full event w v full =
      (push_event_lem event w v).0 ∙ Fifo.enqueue_full 1024 (queued w) event (omega arith)

-- The events of a pair that have room, and are added to a queue of `n`.
abbrev pub room_for : TraceEvent → TraceEvent → ℕ → List TraceEvent
room_for s e n = if ltb n 1022 then s ∷ e ∷ [] else (if n == 1022 then s ∷ [] else [])

-- `traces_emitted` and `traces_dropped`.
abbrev pub counts : {U : Type 0} → World U → ℕ × ℕ
counts w = (w.health.metrics.traces_emitted, w.health.metrics.traces_dropped)

module _ {U : Type 0} where
  push_event-counts :
      (r : Readings) (event : TraceEvent) (w : World U) → counts (push_event r event w).1 ≡ counts w
  unfolding push_event
  push_event-counts r event w = refl

  two_emitted :
      (w : World U)
      → let w' = count_emitted (count_emitted (note_success w)) in
        (queued w' ≡ queued w)
        × (counts w'
            ≡ ((w.health.metrics.traces_emitted + 2) % 2 ^ 64, w.health.metrics.traces_dropped))
  unfolding count_emitted note_success record_trace_success increment_traces_emitted
  two_emitted w = (refl, ap (λ n. (n, w.health.metrics.traces_dropped)) (omega arith))

  note_failure-counts : (w : World U) → counts (note_failure w) ≡ counts w
  unfolding note_failure record_trace_failure
  note_failure-counts w = ground arith

  two_dropped :
      (w : World U)
      → let w' = count_dropped (count_dropped (note_failure w)) in
        (queued w' ≡ queued w)
        × (counts w'
            ≡ (w.health.metrics.traces_emitted, (w.health.metrics.traces_dropped + 2) % 2 ^ 64))
  unfolding count_dropped increment_traces_dropped note_failure
  two_dropped w = (
    refl,
    ap (λ (c : ℕ × ℕ). (c.0, ((c.1 + 1) % 2 ^ 64 + 1) % 2 ^ 64)) (note_failure-counts w)
        ∙ ap (λ n. (w.health.metrics.traces_emitted, n)) (omega arith),
  )

module _ {U : Type 0} (r : Readings) (i : ℕ) (early : i < 100) (sound : r.spurious i ≡ false) where
  module _ (s e : TraceEvent) (w : World U) (v : IsValid default_trace_queue_size w.events) where
    second-IsValid : IsValid default_trace_queue_size (push_event r s w).1.events
    second-IsValid = (push_event_lem r i early sound s w v).1

    same_counts : counts (push_event r e (push_event r s w).1).1 ≡ counts w
    same_counts = push_event-counts r e _ ∙ push_event-counts r s w

    pair_room :
        length (queued w) < 1022
        → (queued (push_pair r s e w) ≡ queued w ++ s ∷ e ∷ [])
          × (counts (push_pair r s e w)
              ≡ ((w.health.metrics.traces_emitted + 2) % 2 ^ 64, w.health.metrics.traces_dropped))
    unfolding push_pair
    pair_room room =
        let first = push_event_room r i early sound s w v (omega arith) in
        let w1 = (push_event r s w).1 in
        let kept : queued w1 ≡ queued w ++ s ∷ [] = ap (λ x. x.1) first in
        let grown = ap length kept ∙ length-append (queued w) (s ∷ []) in
        let second = push_event_room r i early sound e w1 second-IsValid (omega arith) in
        let done1 : (push_event r s w).0 ≡ true = ap (λ x. x.0) first in
        let done2 : (push_event r e w1).0 ≡ true = ap (λ x. x.0) second in
        let w2 = (push_event r e w1).1 in
        rw (done1, done2)
          (
            (two_emitted w2).0
                ∙ (ap (λ x. x.1) second
                    ∙ (ap (λ l. l ++ e ∷ []) kept ∙ append_assoc (queued w) (s ∷ []) (e ∷ []))),
            (two_emitted w2).1 ∙ ap (λ (c : ℕ × ℕ). ((c.0 + 2) % 2 ^ 64, c.1)) same_counts,
          )

    pair_last :
        length (queued w) ≡ 1022
        → (queued (push_pair r s e w) ≡ queued w ++ s ∷ [])
          × (counts (push_pair r s e w)
              ≡ (w.health.metrics.traces_emitted, (w.health.metrics.traces_dropped + 2) % 2 ^ 64))
    unfolding push_pair
    pair_last room =
        let first = push_event_room r i early sound s w v (omega arith) in
        let w1 = (push_event r s w).1 in
        let kept : queued w1 ≡ queued w ++ s ∷ [] = ap (λ x. x.1) first in
        let grown = ap length kept ∙ length-append (queued w) (s ∷ []) in
        let second = push_event_full r i early sound e w1 second-IsValid (omega arith) in
        let done1 : (push_event r s w).0 ≡ true = ap (λ x. x.0) first in
        let done2 : (push_event r e w1).0 ≡ false = ap (λ x. x.0) second in
        let w2 = (push_event r e w1).1 in
        rw (done1, done2)
          (
            (two_dropped w2).0 ∙ (ap (λ x. x.1) second ∙ kept),
            (two_dropped w2).1 ∙ ap (λ (c : ℕ × ℕ). (c.0, (c.1 + 2) % 2 ^ 64)) same_counts,
          )

    pair_full :
        length (queued w) ≡ 1023
        → (queued (push_pair r s e w) ≡ queued w)
          × (counts (push_pair r s e w)
              ≡ (w.health.metrics.traces_emitted, (w.health.metrics.traces_dropped + 2) % 2 ^ 64))
    unfolding push_pair
    pair_full full =
        let first = push_event_full r i early sound s w v full in
        let done1 : (push_event r s w).0 ≡ false = ap (λ x. x.0) first in
        let w1 = (push_event r s w).1 in
        rw done1 (
          (two_dropped w1).0 ∙ ap (λ x. x.1) first,
          (two_dropped w1).1
              ∙ ap (λ (c : ℕ × ℕ). (c.0, (c.1 + 2) % 2 ^ 64)) (push_event-counts r s w),
        )

    -- For a valid queue, and exchanges that succeed within the first hundred attempts: with two slots
    -- free both events of a message are queued behind the others, with one slot free the first is, and
    -- with none neither. Two are counted as emitted in the first case, and as dropped in the others.
    pub push_pair_lem :
        (queued (push_pair r s e w) ≡ queued w ++ room_for s e (length (queued w)))
        × (counts (push_pair r s e w) ≡ (
            if ltb (length (queued w)) 1022
            then ((w.health.metrics.traces_emitted + 2) % 2 ^ 64, w.health.metrics.traces_dropped)
            else (w.health.metrics.traces_emitted, (w.health.metrics.traces_dropped + 2) % 2 ^ 64)))
    push_pair_lem = elim (Bool-cases (ltb (length (queued w)) 1022)) [
      | inl two ↦ rw two (pair_room (ground arith))
      | inr less ↦ elim (Bool-cases (length (queued w) == 1022)) [
        | inl one ↦ rw (less, one) (pair_last (ground arith))
        | inr zero_left ↦
            let bound = (size_facts 1024 blank_event w.events v).0 in
            let len = length-contents 1024 blank_event w.events in
            rw (less, zero_left, append-nil (queued w)) (pair_full (ground arith))
      ]
    ]
