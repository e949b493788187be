-- ===== src/World/Frame.antt =====
-- What no intercepted call may change of its own accord, of the state in ../World.antt: the state of
-- the middleware, and the caches that only creation and destruction write.
use rmw_robotops.Base.{ℕ, Bool, true, false, List, ◌≡◌, refl, if◌then◌else◌, if-intro}
use rmw_robotops.Context.{TraceContext, Thread}
use rmw_robotops.Events.{TraceEvent}
use rmw_robotops.World.{
  World, Readings, PendingRequest, TopicMetadata, ServiceMetadata, push_event,
  enqueue_context_change, check_tracing, note_failure, note_success, count_emitted, count_dropped,
}
use rmw_robotops.Endpoint.{push_pair, emit_exited, emit_entered}
use rmw_robotops.Rpc.{push_one}

pub record Untraced (U : Type 0) : Type 0 where
  pub outside : U
  pub publishers : List (ℕ × TopicMetadata)
  pub subscriptions : List (ℕ × TopicMetadata)
  pub clients : List (ℕ × ServiceMetadata)
  pub services : List (ℕ × ServiceMetadata)

module _ {U : Type 0} where
  abbrev pub untraced : World U → Untraced U
  untraced w = record {
    outside = w.outside;
    publishers = w.publishers;
    subscriptions = w.subscriptions;
    clients = w.clients;
    services = w.services;
  }

  pub push_event-untraced :
      (r : Readings) (e : TraceEvent) (w : World U) → untraced (push_event r e w).1 ≡ untraced w
  unfolding push_event
  push_event-untraced r e w = refl

  pub check_tracing-untraced : (w : World U) → untraced (check_tracing w).1 ≡ untraced w
  unfolding check_tracing
  check_tracing-untraced w = refl

  pub push_pair-untraced :
      (r : Readings) (start_event end_event : TraceEvent) (w : World U)
      → untraced (push_pair r start_event end_event w) ≡ untraced w
  unfolding push_pair push_event note_failure note_success count_emitted count_dropped
  push_pair-untraced r start_event end_event w =
      if-intro (λ v. untraced v ≡ untraced w) (push_event r start_event w).0 _ _
        (λ _.
          if-intro (λ v. untraced v ≡ untraced w)
            (push_event r end_event (push_event r start_event w).1).0 _ _ (λ _. refl) (λ _. refl))
        (λ _. refl)

  pub push_one-untraced :
      (r : Readings) (e : TraceEvent) (w : World U) → untraced (push_one r e w) ≡ untraced w
  unfolding push_one push_event note_failure note_success
  push_one-untraced r e w =
      if-intro (λ v. untraced v ≡ untraced w) (push_event r e w).0 _ _ (λ _. refl) (λ _. refl)

  pub emit_exited-untraced :
      (r : Readings) (e : TraceEvent) (w : World U) → untraced (emit_exited r e w) ≡ untraced w
  unfolding emit_exited enqueue_context_change
  emit_exited-untraced r e w = refl

  pub emit_entered-untraced :
      (r : Readings) (c : TraceContext) (e : TraceEvent) (w : World U)
      → untraced (emit_entered r c e w) ≡ untraced w
  unfolding emit_entered enqueue_context_change
  emit_entered-untraced r c e w = refl

  -- A branch that keeps it is as good as none.
  pub if-untraced :
      (b : Bool) (w w' : World U)
      → untraced w' ≡ untraced w
      → untraced (if b then w' else w) ≡ untraced w
  if-untraced true w w' e = e
  if-untraced false w w' e = refl

  -- Nor do the pushes touch the thread or the pending requests.
  pub push_pair-thread :
      (r : Readings) (start_event end_event : TraceEvent) (w : World U)
      → (push_pair r start_event end_event w).thread ≡ w.thread
  unfolding push_pair push_event note_failure note_success count_emitted count_dropped
  push_pair-thread r start_event end_event w =
      if-intro (λ (v : World U). v.thread ≡ w.thread) (push_event r start_event w).0 _ _
        (λ _.
          if-intro (λ (v : World U). v.thread ≡ w.thread)
            (push_event r end_event (push_event r start_event w).1).0 _ _ (λ _. refl) (λ _. refl))
        (λ _. refl)

  abbrev pub own : World U → Thread × List (ℕ × PendingRequest)
  own w = (w.thread, w.pending_requests)

  pub push_one-own : (r : Readings) (e : TraceEvent) (w : World U) → own (push_one r e w) ≡ own w
  unfolding push_one push_event note_failure note_success
  push_one-own r e w =
      if-intro (λ v. own v ≡ own w) (push_event r e w).0 _ _ (λ _. refl) (λ _. refl)

  pub if-keeps :
      {A : Type 0} (f : World U → A) (b : Bool) (w w' : World U)
      → f w' ≡ f w
      → f (if b then w' else w) ≡ f w
  if-keeps f true w w' e = e
  if-keeps f false w w' e = refl
