-- ===== src/Tests/Calls.antt =====
-- The theorems on the intercepted calls, at a concrete middleware.
use mathlib.Core.Path.{subst}
use rmw_robotops.Base.{
  sym, ◌==◌, if-intro, ℕ, ◌+◌, ◌≡◌, refl, true, false, none, some, arith, if◌then◌else◌, ltb, ◌++◌,
  length,
}
use rmw_robotops.Base.Assoc.{find}
use rmw_robotops.Text.{fill}
use rmw_robotops.Tests.{
  constants, readings, middleware, start, in_trace, deliver, request, deliver_rpc, chatter,
  listener,
}
use rmw_robotops.World.{
  enqueue_context_change, push_event, note_success, note_failure, World, default_trace_queue_size,
  check_tracing, draw_span_id,
}
use rmw_robotops.World.Frame.{untraced}
use rmw_robotops.World.Forward.{forward, forward_request, forward_take, seen, seen_with}
use rmw_robotops.Publish.{rmw_publish}
use rmw_robotops.Publish.Transparent.{rmw_publish_forwards}
use rmw_robotops.Take.{rmw_take_with_info}
use rmw_robotops.Take.Transparent.{rmw_take_with_info_forwards}
use rmw_robotops.Take.Links.{rmw_take_with_info-pending, rmw_take_with_info-context}
use rmw_robotops.Client.{rmw_send_request, rmw_take_response}
use rmw_robotops.Client.Transparent.{rmw_send_request_forwards, rmw_take_response_forwards}
use rmw_robotops.Client.Correlation.{rmw_take_response-continues}
use rmw_robotops.Service.{
  take_request_loaded, take_request_end, rmw_take_request, rmw_send_response,
}
use rmw_robotops.Service.Transparent.{with_header, rmw_send_response_forwards}
use rmw_robotops.Service.Pairing.{rmw_send_response-forgets_request, without_context}
use rmw_robotops.Topic.{bytes}
use rmw_robotops.State.{record_trace_success, record_trace_failure, is_tracing_enabled}
use rmw_robotops.Context.{is_empty, starts_nul, get_or_mint_trace_context}
use rmw_robotops.Events.{blank_event, TraceEvent}
use rmw_robotops.Endpoint.{push_pair, emit_entered}
use rmw_robotops.Rpc.{push_one}
use rmw_robotops.Endpoint.{
  Node, Create, Destroy, rmw_create_publisher, rmw_destroy_publisher, get_publisher_metadata,
}
use rmw_robotops.Endpoint.Lifecycle.{metadata, publisher_lifecycle}
use rmw_robotops.Publish.Account.{queued, counts, room_for, push_pair_lem}
use rmw_robotops.Queue.Valid.{empty_queue-IsValid}

rmw_publish_forwards_example :
    seen (rmw_publish constants middleware readings chatter 8 start)
    ≡ (0, record (untraced start) { outside = 1 })
unfolding forward
rmw_publish_forwards_example = rmw_publish_forwards constants middleware readings chatter 8 start

rmw_take_with_info_forwards_example :
    seen_with (rmw_take_with_info constants middleware readings listener 8 false in_trace)
    ≡ (0, true, record (untraced in_trace) { outside = 1 })
unfolding forward_take
rmw_take_with_info_forwards_example =
    rmw_take_with_info_forwards constants middleware readings listener 8 false in_trace

rmw_send_request_forwards_example :
    seen_with (rmw_send_request constants middleware readings 60 8 false start)
    ≡ (0, 7, record (untraced start) { outside = 1 })
unfolding forward_request
rmw_send_request_forwards_example =
    rmw_send_request_forwards constants middleware readings 60 8 false start

rmw_take_response_forwards_example :
    seen_with (rmw_take_response constants middleware readings 60 8 false start)
    ≡ (0, true, record (untraced start) { outside = 1 })
unfolding forward_take
rmw_take_response_forwards_example =
    rmw_take_response_forwards constants middleware readings 60 8 false start

rmw_send_response_forwards_example :
    seen (rmw_send_response constants middleware readings 70 8 false 7 start)
    ≡ (0, record (untraced start) { outside = 1 })
unfolding forward with_header
rmw_send_response_forwards_example =
    rmw_send_response_forwards constants middleware readings 70 8 false 7 start

rmw_take_with_info-pending_example :
    (rmw_take_with_info constants middleware readings listener 8 false in_trace).2.thread.pending
    ≡ in_trace.thread.pending
rmw_take_with_info-pending_example =
    rmw_take_with_info-pending constants middleware readings listener 8 false in_trace

rmw_take_with_info-context_example :
    (rmw_take_with_info constants middleware readings listener 8 false in_trace).2.thread.context
    ≡ record {
      trace_id = bytes "ab";
      span_id = fill 17 (draw_span_id readings in_trace).0;
      parent_span_id = bytes "cd";
    }
unfolding fill check_tracing is_tracing_enabled is_empty starts_nul
rmw_take_with_info-context_example =
    rmw_take_with_info-context constants middleware readings deliver listener 8 false in_trace refl
      refl refl refl refl

push_pair_lem_example :
    (queued (push_pair readings blank_event blank_event start)
      ≡ queued start ++ room_for blank_event blank_event (length (queued start)))
    × (counts (push_pair readings blank_event blank_event start)
        ≡ (if ltb (length (queued start)) 1022 then (2, 0) else (0, 2)))
push_pair_lem_example =
    push_pair_lem readings 0 (omega arith) refl blank_event blank_event start
      (empty_queue-IsValid default_trace_queue_size blank_event (omega arith))

rmw_take_response-continues_example :
    let sent = (rmw_send_request constants middleware readings 60 8 false in_trace).2 in
    let waiting = record in_trace { pending_requests = sent.pending_requests } in
    let after = (rmw_take_response constants middleware readings 61 8 false waiting).2 in
    (after.thread.context ≡ record {
      trace_id = bytes "ab";
      span_id = fill 17 (draw_span_id readings waiting).0;
      parent_span_id = fill 17 (draw_span_id readings in_trace).0;
    })
    × (find after.pending_requests 7 ≡ none)
unfolding fill check_tracing is_tracing_enabled get_or_mint_trace_context is_empty starts_nul
rmw_take_response-continues_example =
    rmw_take_response-continues constants middleware readings request refl 60 8 in_trace refl refl
      readings deliver_rpc refl 61 8
      (record in_trace {
        pending_requests =
            (rmw_send_request constants middleware readings 60 8 false in_trace).2.pending_requests;
      })
      refl refl refl refl refl

still_checks :
    (event : TraceEvent) (w : World ℕ)
    → (check_tracing (push_one readings event (record w { health = start.health }))).0 ≡ true
unfolding check_tracing is_tracing_enabled push_one push_event note_success record_trace_success
    note_failure record_trace_failure
still_checks event w =
    if-intro (λ (v : World ℕ). (check_tracing v).0 ≡ true)
      (push_event readings event (record w { health = start.health })).0 _ _ (λ _. refl) (λ _. refl)

still_checks_at :
    (event : TraceEvent) (w : World ℕ)
    → w.health ≡ start.health
    → (check_tracing (push_one readings event w)).0 ≡ true
still_checks_at event w e =
    subst (λ h. (check_tracing (push_one readings event (record w { health = h }))).0 ≡ true)
      (sym e) (still_checks event w)

still_on :
    (check_tracing (rmw_take_request constants middleware readings 70 8 false start).2).0 ≡ true
unfolding check_tracing is_tracing_enabled rmw_take_request take_request_loaded take_request_end
    emit_entered enqueue_context_change draw_span_id
still_on = still_checks_at _ _ refl

rmw_send_response-forgets_request_example :
    let served = (rmw_take_request constants middleware readings 70 8 false start).2 in
    rmw_send_response constants middleware readings 70 9 false 7 served
    ≡ rmw_send_response constants middleware readings 70 9 false 7 (without_context served)
unfolding check_tracing is_tracing_enabled
rmw_send_response-forgets_request_example =
    rmw_send_response-forgets_request constants middleware readings readings deliver_rpc
      (λ u a null n m. (0, u + 1)) refl refl 70 8 false start refl refl refl 9 false 7 still_on

abbrev talker : Node
talker = record { name = bytes "talker"; namespace = bytes "/" }

abbrev create : Create ℕ
create u node type_support topic = (40, u + 1)

abbrev destroy : Destroy ℕ
destroy u node publisher = (0, u + 1)

publisher_lifecycle_example :
    let (p, w1) =
      rmw_create_publisher readings (some create) talker none (bytes "/chatter") start in
    let w2 = (rmw_destroy_publisher constants (some destroy) talker p w1).1 in
    (get_publisher_metadata 40 w1 ≡ (
      if p == 40
      then some (
          metadata constants readings create destroy talker none
            (bytes "/chatter")
            start
            (λ e. omega arith))
      else none))
    × (get_publisher_metadata 40 w2 ≡ (if p == 40 then none else none))
unfolding get_publisher_metadata find
publisher_lifecycle_example =
    publisher_lifecycle constants readings create destroy talker none (bytes "/chatter") start
      (λ e. omega arith) 40
