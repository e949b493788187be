-- ===== src/Client/Correlation.antt =====
-- How the response to a request goes on in the trace of the request.
use rmw_robotops.Base.{
  List, ℕ, ◌-◌, arith, true, false, none, some, ◌≡◌, refl, ap, ◌∙◌, eq→==, ◌==◌, if◌then◌else◌,
}
use rmw_robotops.Base.Assoc.{find, put, erase, find-put, find-erase}
use rmw_robotops.Text.{Text, fill}
use rmw_robotops.Context.{TraceContext, Thread, set_trace_context, get_or_mint_trace_context}
use rmw_robotops.Context.Pending.{take-take}
use rmw_robotops.Endpoint.{emit_entered}
use rmw_robotops.Client.{
  remember_request, send_request_end, send_request_loaded, find_request, response_context,
  take_response_end, rmw_send_request, rmw_take_response, take_response_loaded,
}
use rmw_robotops.World.{
  World, Readings, Constants, Underlying, Taken, PendingRequest, ServiceInfo, check_tracing,
  draw_span_id, enqueue_context_change,
}
use rmw_robotops.World.Frame.{own, push_one-own}

module _ {U : Type 0} (k : Constants) (underlying : Underlying U) (r : Readings) where
  send_request_end-pending :
      (client m id : ℕ) (c : TraceContext) (span : Text) (w : World U)
      → (send_request_end k underlying r client m false id c span w).pending_requests
        ≡ put w.pending_requests id (record {
          trace_id = fill 33 c.trace_id;
          span_id = fill 17 span;
          timestamp_ns = r.now_ns;
        })
  unfolding send_request_end remember_request
  send_request_end-pending client m id c span w = ap (λ c. c.1) (push_one-own r _ _)

  send_request_loaded-pending :
      (send : U → ℕ → ℕ → ℕ × ℕ × U) (client m : ℕ) (w : World U)
      → (check_tracing w).0 ≡ true
      → (send w.outside client m).0 ≡ k.ret_ok
      → let (c, t) = get_or_mint_trace_context r.seed_nanos r.thread_id w.thread in
        (send_request_loaded k underlying r (some send) client m false w).2.pending_requests
        ≡ put w.pending_requests (send w.outside client m).1 (record {
          trace_id = fill 33 c.trace_id;
          span_id = fill 17 (draw_span_id r (record w { thread = t })).0;
          timestamp_ns = r.now_ns;
        })
  unfolding send_request_loaded check_tracing draw_span_id
  send_request_loaded-pending send client m w on ok =
      rw (on, eq→== _ _ ok) (send_request_end-pending client m _ _ _ _)

  take_response_end-own :
      (client m : ℕ) (header : ServiceInfo) (span : Text) (w : World U)
      → let (pending, w1) = find_request k underlying r false header.sequence_number w in
        let (c, w2) = response_context k underlying r pending span w1 in
        own (take_response_end k underlying r client m false header span w)
        ≡ (set_trace_context c w2.thread, w2.pending_requests)
  unfolding take_response_end emit_entered enqueue_context_change
  take_response_end-own client m header span w = push_one-own r _ _

-- The context of a response whose request is found.
abbrev continued : PendingRequest → Text → TraceContext
continued p span = record {
  trace_id = fill 33 p.trace_id;
  span_id = fill 17 span;
  parent_span_id = fill 17 p.span_id;
}

module _ {U : Type 0} (k : Constants) (underlying : Underlying U) (r : Readings) where
  take_response_end_found :
      (client m : ℕ) (header : ServiceInfo) (span : Text) (p : PendingRequest) (w : World U)
      → find w.pending_requests header.sequence_number ≡ some p
      → own (take_response_end k underlying r client m false header span w) ≡ (
        set_trace_context (continued p span) w.thread,
        erase w.pending_requests header.sequence_number,
      )
  unfolding find_request response_context
  take_response_end_found client m header span p w found =
      take_response_end-own k underlying r client m header span w ∙ rw found refl

  take_response_loaded_found :
      (call : U → ℕ → ℕ → Taken U ServiceInfo) (client m n : ℕ) (p : PendingRequest) (w : World U)
      → (check_tracing w).0 ≡ true
      → (call w.outside client m).ret ≡ k.ret_ok
      → (call w.outside client m).taken ≡ true
      → (call w.outside client m).header.sequence_number ≡ n
      → find w.pending_requests n ≡ some p
      → let after = (take_response_loaded k underlying r (some call) client m false w).2 in
        own after ≡ (
          set_trace_context (continued p (draw_span_id r w).0) (draw_span_id r w).1.thread,
          erase w.pending_requests n,
        )
  unfolding take_response_loaded check_tracing draw_span_id
  take_response_loaded_found call client m n p w on ok taken answers found =
      rw (on, eq→== _ _ ok, taken)
        (take_response_end_found client m _ _ p _ (ap (find w.pending_requests) answers ∙ found)
          ∙ ap
              (λ i. (
                set_trace_context (continued p (draw_span_id r w).0) (draw_span_id r w).1.thread,
                erase w.pending_requests i,
              ))
              answers)

fill_twice : (size : ℕ) (text : Text) → fill size (fill size text) ≡ fill size text
unfolding fill
fill_twice size text = take-take (size - 1) (size - 1) text (omega arith)

module _ {U : Type 0} (k : Constants) (underlying : Underlying U) (r : Readings)
    (send : U → ℕ → ℕ → ℕ × ℕ × U) (sends : underlying.send_request ≡ some send) (client m : ℕ)
    (w : World U) (on : (check_tracing w).0 ≡ true)
    (sent : (send w.outside client m).0 ≡ k.ret_ok) where
  -- The request: its sequence id, the context it is sent in, and its span.
  abbrev id : ℕ
  id = (send w.outside client m).1

  abbrev request : TraceContext × Thread
  request = get_or_mint_trace_context r.seed_nanos r.thread_id w.thread

  abbrev request_span : Text
  request_span = (draw_span_id r (record w { thread = request.1 })).0

  abbrev stored : PendingRequest
  stored = record {
    trace_id = fill 33 request.0.trace_id;
    span_id = fill 17 request_span;
    timestamp_ns = r.now_ns;
  }

  -- A request that goes out while tracing is on is remembered under its sequence id, and no other
  -- pending request is lost.
  pub rmw_send_request-pending :
      (j : ℕ)
      → find (rmw_send_request k underlying r client m false w).2.pending_requests j
        ≡ (if id == j then some stored else find w.pending_requests j)
  unfolding rmw_send_request
  rmw_send_request-pending j =
      ap (λ f. find (send_request_loaded k underlying r f client m false w).2.pending_requests j)
        sends
      ∙ ap (λ p. find p j) (send_request_loaded-pending k underlying r send client m w on sent)
      ∙ find-put w.pending_requests id j stored

  continued-stored :
      (span : Text)
      → continued stored span ≡ record {
        trace_id = fill 33 request.0.trace_id;
        span_id = fill 17 span;
        parent_span_id = fill 17 request_span;
      }
  continued-stored span =
      ap
        (λ t. record {
          trace_id = t;
          span_id = fill 17 span;
          parent_span_id = fill 17 (fill 17 request_span);
        })
        (fill_twice 33 request.0.trace_id)
      ∙ ap
          (λ t. record {
            trace_id = fill 33 request.0.trace_id;
            span_id = fill 17 span;
            parent_span_id = t;
          })
          (fill_twice 17 request_span)

  module _ (r' : Readings) (call : U → ℕ → ℕ → Taken U ServiceInfo)
      (takes : underlying.take_response ≡ some call) (other response : ℕ) (w' : World U)
      (still_on : (check_tracing w').0 ≡ true)
      (pending : find w'.pending_requests id
        ≡ find (rmw_send_request k underlying r client m false w).2.pending_requests id)
      (ok : (call w'.outside other response).ret ≡ k.ret_ok)
      (taken : (call w'.outside other response).taken ≡ true)
      (answers : (call w'.outside other response).header.sequence_number ≡ id) where
    -- A request goes out while tracing is on, and later any client takes a response with its sequence
    -- id, while the request is pending and tracing is on: the thread that takes it goes on in the
    -- trace of the request, in a new span below the span of the request, and the request is no longer
    -- pending.
    pub rmw_take_response-continues :
        let after = (rmw_take_response k underlying r' other response false w').2 in
        (after.thread.context ≡ record {
          trace_id = fill 33 request.0.trace_id;
          span_id = fill 17 (draw_span_id r' w').0;
          parent_span_id = fill 17 request_span;
        })
        × (find after.pending_requests id ≡ none)
    unfolding rmw_take_response set_trace_context
    rmw_take_response-continues =
        let found : find w'.pending_requests id ≡ some stored =
          pending ∙ rmw_send_request-pending id ∙ rw (eq→== id id refl) in
        let facts =
          ap (λ f. own (take_response_loaded k underlying r' f other response false w').2) takes
          ∙ take_response_loaded_found k underlying r' call other response id stored w' still_on ok
              taken answers found in
        (
          ap (λ (o : Thread × List (ℕ × PendingRequest)). o.0.context) facts
              ∙ continued-stored (draw_span_id r' w').0,
          ap (λ (o : Thread × List (ℕ × PendingRequest)). find o.1 id) facts
              ∙ find-erase w'.pending_requests id id
              ∙ rw (eq→== id id refl),
        )
