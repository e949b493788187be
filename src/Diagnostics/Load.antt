-- ===== src/Diagnostics/Load.antt =====
-- What the use of the trace queue in a report says of the pushes and pops so far.
use rmw_robotops.Base.{
  ℕ, suc, ◌<◌, ◌≡◌, refl, sym, ap, ◌∙◌, Bool, false, not, List, [], ◌∷◌, ◌==◌, arith, length,
}
use rmw_robotops.Queue.{LockFreeQueue, try_push, try_pop, size}
use rmw_robotops.Queue.Fifo
use rmw_robotops.Queue.Fifo.{Op, push, pop}
use rmw_robotops.Queue.Valid.{IsValid, try_push-IsValid, try_pop-IsValid}
use rmw_robotops.Queue.Refine.{
  contents, length-contents, size_facts, try_push_refines, try_pop_refines,
}
use rmw_robotops.Events.{TraceEvent, blank_event}
use rmw_robotops.World.{World, default_trace_queue_size}
use rmw_robotops.Diagnostics.{ClockSyncInfo}
use rmw_robotops.Diagnostics.Report.{Surroundings, ReportState, populate_diagnostics_report}

module _ {ℓ} {A : Type ℓ} (capacity : ℕ) (blank : A) where
  -- The queue after some pushes and pops, and what a FIFO holds after them.
  unfoldable pub queue_after : (ℕ → Bool) → LockFreeQueue A → List (Op A) → LockFreeQueue A
  queue_after spurious q [] = q
  queue_after spurious q (push x ∷ ops) =
      queue_after spurious (try_push capacity blank spurious q x).1 ops
  queue_after spurious q (pop ∷ ops) = queue_after spurious (try_pop capacity blank q).1 ops

  queue_after-IsValid :
      (spurious : ℕ → Bool) (ops : List (Op A)) (q : LockFreeQueue A)
      → IsValid capacity q
      → IsValid capacity (queue_after spurious q ops)
  unfolding queue_after
  queue_after-IsValid spurious [] q v = v
  queue_after-IsValid spurious (push x ∷ ops) q v =
      queue_after-IsValid spurious ops _ (try_push-IsValid capacity blank spurious q x v)
  queue_after-IsValid spurious (pop ∷ ops) q v =
      queue_after-IsValid spurious ops _ (try_pop-IsValid capacity blank q v)

module _ {ℓ} {A : Type ℓ} (capacity : ℕ) where
  unfoldable pub held_after : List A → List (Op A) → List A
  held_after xs [] = xs
  held_after xs (push x ∷ ops) = held_after (Fifo.enqueue capacity xs x).1 ops
  held_after xs (pop ∷ ops) = held_after (Fifo.dequeue xs).1 ops

module _ {ℓ} {A : Type ℓ} (capacity : ℕ) (blank : A) where
  contents-queue_after :
      (spurious : ℕ → Bool) (i : ℕ) (ops : List (Op A)) (q : LockFreeQueue A)
      → IsValid capacity q
      → i < 100
      → spurious i ≡ false
      → contents capacity blank (queue_after capacity blank spurious q ops)
        ≡ held_after capacity (contents capacity blank q) ops
  unfolding queue_after held_after
  contents-queue_after spurious i [] q v h e = refl
  contents-queue_after spurious i (push x ∷ ops) q v h e =
      contents-queue_after spurious i ops _ (try_push-IsValid capacity blank spurious q x v) h e
      ∙ ap (λ p. held_after capacity p.1 ops) (try_push_refines capacity blank spurious i q x v h e)
  contents-queue_after spurious i (pop ∷ ops) q v h e =
      contents-queue_after spurious i ops _ (try_pop-IsValid capacity blank q v) h e
      ∙ ap (λ p. held_after capacity p.1 ops) (try_pop_refines capacity blank q v)

enqueue_flag :
    {A : Type 0} (capacity : ℕ) (xs : List A) (x : A)
    → (Fifo.enqueue capacity xs x).0 ≡ not (suc (length xs) == capacity)
unfolding Fifo.enqueue
enqueue_flag capacity xs x = ground arith

-- After any pushes and pops on a valid trace queue, where at one of the hundred attempts of a push the
-- exchange is free to go through, the use in a report is the number of events that a FIFO with room
-- for 1023 holds after them, over 1024. It is below one whole, and one more push is refused just if a
-- single slot is missing to the whole.
pub populate_diagnostics_report_lem :
    {U : Type 0} (e : Surroundings) (clock : ClockSyncInfo) (s : ReportState) (w : World U)
    (spurious : ℕ → Bool) (i : ℕ) (ops : List (Op TraceEvent)) (next : TraceEvent)
    → IsValid default_trace_queue_size w.events
    → i < 100
    → spurious i ≡ false
    → let q = queue_after default_trace_queue_size blank_event spurious w.events ops in
      let held = held_after 1024 (contents default_trace_queue_size blank_event w.events) ops in
      let report = (populate_diagnostics_report e clock s (record w { events = q })).0 in
      (report.queue_utilization ≡ (length held, 1024))
      × (length held < 1024)
      × ((try_push default_trace_queue_size blank_event spurious q next).0
          ≡ not (suc (report.queue_utilization.0) == report.queue_utilization.1))
unfolding populate_diagnostics_report
populate_diagnostics_report_lem e clock s w spurious i ops next v h free =
    let q = queue_after default_trace_queue_size blank_event spurious w.events ops in
    let valid = queue_after-IsValid default_trace_queue_size blank_event spurious ops w.events v in
    let stored =
      contents-queue_after default_trace_queue_size blank_event spurious i ops w.events v h free in
    let many = length-contents default_trace_queue_size blank_event q in
    let facts = size_facts default_trace_queue_size blank_event q valid in
    let same : size default_trace_queue_size blank_event q
        ≡ length (held_after 1024 (contents default_trace_queue_size blank_event w.events) ops) =
      sym many ∙ ap length stored in
    (
      ap (λ n. (n, 1024)) same,
      omega (arith, same, facts.0),
      ap (λ p. p.0)
            (try_push_refines default_trace_queue_size blank_event spurious i q next valid h free)
          ∙ enqueue_flag 1024 (contents default_trace_queue_size blank_event q) next
          ∙ ap (λ n. not (suc n == 1024)) many,
    )
