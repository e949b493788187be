-- ===== src/Client/Sound.antt =====
-- A client's calls keep the invariant of the shared state.
use rmw_robotops.Base.{
  ℕ, Bool, true, false, Option, none, some, refl, if-intro, if◌then◌else◌, ◌==◌, ◌&&◌,
}
use rmw_robotops.Text.{Text}
use rmw_robotops.Context.{TraceContext, get_or_mint_trace_context, set_trace_context}
use rmw_robotops.Context.Mint.{get_or_mint_trace_context_lem}
use rmw_robotops.Client.{
  remember_request, send_request_end, send_request_loaded, rmw_send_request, find_request,
  response_context, take_response_end, take_response_loaded, rmw_take_response,
}
use rmw_robotops.World.{
  World, Readings, Constants, Underlying, Taken, ServiceInfo, PendingRequest, check_tracing,
  draw_span_id, draw_trace_id,
}
use rmw_robotops.World.Sound.{IsSound, rest-IsSound, push_one-IsSound, emit_entered-IsSound}

module _ {U : Type 0} (k : Constants) (underlying : Underlying U) (r : Readings) where
  remember_request-IsSound :
      (null : Bool) (id : ℕ) (c : TraceContext) (span : Text) (w : World U)
      → IsSound w
      → IsSound (remember_request k underlying r null id c span w)
  unfolding remember_request
  remember_request-IsSound true id c span w s = s
  remember_request-IsSound false id c span w s = rest-IsSound r w _ refl refl refl s

  send_request_end-IsSound :
      (client m : ℕ) (null : Bool) (id : ℕ) (c : TraceContext) (span : Text) (w : World U)
      → IsSound w
      → IsSound (send_request_end k underlying r client m null id c span w)
  unfolding send_request_end
  send_request_end-IsSound client m null id c span w s =
      push_one-IsSound r _ _ (remember_request-IsSound null id c span w s)

  send_request_loaded-IsSound :
      (send : Option (U → ℕ → ℕ → ℕ × ℕ × U)) (client m : ℕ) (null : Bool) (w : World U)
      → IsSound w
      → IsSound (send_request_loaded k underlying r send client m null w).2
  unfolding send_request_loaded check_tracing draw_span_id
  send_request_loaded-IsSound none client m null w s = s
  send_request_loaded-IsSound (some send) client m null w s =
      let w1 = (check_tracing w).1 in
      let active = (check_tracing w).0 in
      let minted = get_or_mint_trace_context r.seed_nanos r.thread_id w1.thread in
      let drawn = draw_span_id r (record w1 { thread = minted.1 }) in
      let w2 = if active then drawn.1 else w1 in
      let ready : IsSound w2 =
        if-intro IsSound active _ _
          (λ _.
            rest-IsSound r w _ refl refl
              (get_or_mint_trace_context_lem r.seed_nanos r.thread_id w1.thread).2 s)
          (λ _. rest-IsSound r w _ refl refl refl s) in
      let t = send w2.outside client m in
      let w3 = record w2 { outside = t.2 } in
      let called : IsSound w3 = rest-IsSound r w2 w3 refl refl refl ready in
      if-intro IsSound ((t.0 == k.ret_ok) && active) _ w3
        (λ _. send_request_end-IsSound client m null t.1 minted.0 drawn.0 w3 called) (λ _. called)

  -- Sending a request keeps both rings valid and the buffer of pending contexts within its bounds,
  -- whatever the middleware returns and the state of the tracer is.
  pub rmw_send_request-IsSound :
      (client m : ℕ) (null : Bool) (w : World U)
      → IsSound w
      → IsSound (rmw_send_request k underlying r client m null w).2
  unfolding rmw_send_request
  rmw_send_request-IsSound client m null w s =
      send_request_loaded-IsSound underlying.send_request client m null w s

  find_request-IsSound :
      (null : Bool) (n : ℕ) (w : World U)
      → IsSound w
      → IsSound (find_request k underlying r null n w).1
  unfolding find_request
  find_request-IsSound true n w s = s
  find_request-IsSound false n w s = rest-IsSound r w _ refl refl refl s

  response_context-IsSound :
      (p : Option PendingRequest) (span : Text) (w : World U)
      → IsSound w
      → IsSound (response_context k underlying r p span w).1
  unfolding response_context draw_trace_id
  response_context-IsSound none span w s = rest-IsSound r w _ refl refl refl s
  response_context-IsSound (some p) span w s = s

  take_response_end-IsSound :
      (client m : ℕ) (null : Bool) (header : ServiceInfo) (span : Text) (w : World U)
      → IsSound w
      → IsSound (take_response_end k underlying r client m null header span w)
  unfolding take_response_end set_trace_context
  take_response_end-IsSound client m null header span w s =
      let found = find_request k underlying r null header.sequence_number w in
      let continued = response_context k underlying r found.0 span found.1 in
      emit_entered-IsSound r _ _ _ (
        push_one-IsSound r _ _ (
          rest-IsSound r continued.1 _ refl refl refl (
            response_context-IsSound found.0 span found.1
              (find_request-IsSound null header.sequence_number w s))))

  take_response_loaded-IsSound :
      (call : Option (U → ℕ → ℕ → Taken U ServiceInfo)) (client m : ℕ) (null : Bool) (w : World U)
      → IsSound w
      → IsSound (take_response_loaded k underlying r call client m null w).2
  unfolding take_response_loaded check_tracing draw_span_id
  take_response_loaded-IsSound none client m null w s = s
  take_response_loaded-IsSound (some call) client m null w s =
      let w1 = (check_tracing w).1 in
      let active = (check_tracing w).0 in
      let w2 = if active then (draw_span_id r w1).1 else w1 in
      let drawn : IsSound w2 =
        if-intro IsSound active _ _ (λ _. rest-IsSound r w _ refl refl refl s)
          (λ _. rest-IsSound r w _ refl refl refl s) in
      let t = call w2.outside client m in
      let w3 = record w2 { outside = t.outside } in
      let called : IsSound w3 = rest-IsSound r w2 w3 refl refl refl drawn in
      if-intro IsSound (((t.ret == k.ret_ok) && t.taken) && active) _ w3
        (λ _. take_response_end-IsSound client m null t.header (draw_span_id r w1).0 w3 called)
        (λ _. called)

  -- The same of taking a response.
  pub rmw_take_response-IsSound :
      (client m : ℕ) (null : Bool) (w : World U)
      → IsSound w
      → IsSound (rmw_take_response k underlying r client m null w).2
  unfolding rmw_take_response
  rmw_take_response-IsSound client m null w s =
      take_response_loaded-IsSound underlying.take_response client m null w s
