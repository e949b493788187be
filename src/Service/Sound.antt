-- ===== src/Service/Sound.antt =====
-- A service's calls keep the invariant of the shared state.
use rmw_robotops.Base.{ℕ, Bool, Option, none, some, refl, if-intro, if◌then◌else◌, ◌==◌, ◌&&◌}
use rmw_robotops.Text.{Text}
use rmw_robotops.Context.{TraceContext, get_or_mint_trace_context, set_trace_context}
use rmw_robotops.Context.Mint.{get_or_mint_trace_context_lem}
use rmw_robotops.Service.{
  take_request_end, take_request_loaded, rmw_take_request, send_response_end, send_response_loaded,
  rmw_send_response,
}
use rmw_robotops.World.{
  World, Readings, Constants, Underlying, Taken, ServiceInfo, check_tracing, draw_span_id,
}
use rmw_robotops.World.Sound.{
  IsSound, rest-IsSound, push_one-IsSound, emit_entered-IsSound, emit_exited-IsSound,
}

module _ {U : Type 0} (k : Constants) (underlying : Underlying U) (r : Readings) where
  take_request_end-IsSound :
      (service m : ℕ) (null : Bool) (header : ServiceInfo) (span : Text) (w : World U)
      → IsSound w
      → IsSound (take_request_end k underlying r service m null header span w)
  unfolding take_request_end set_trace_context
  take_request_end-IsSound service m null header span w s =
      emit_entered-IsSound r _ _ _ (push_one-IsSound r _ _ (rest-IsSound r w _ refl refl refl s))

  take_request_loaded-IsSound :
      (call : Option (U → ℕ → ℕ → Taken U ServiceInfo)) (service m : ℕ) (null : Bool) (w : World U)
      → IsSound w
      → IsSound (take_request_loaded k underlying r call service m null w).2
  unfolding take_request_loaded check_tracing draw_span_id
  take_request_loaded-IsSound none service m null w s = s
  take_request_loaded-IsSound (some call) service m null w s =
      let w1 = (check_tracing w).1 in
      let active = (check_tracing w).0 in
      let w2 = if active then (draw_span_id r w1).1 else w1 in
      let drawn : IsSound w2 =
        if-intro IsSound active _ _ (λ _. rest-IsSound r w _ refl refl refl s)
          (λ _. rest-IsSound r w _ refl refl refl s) in
      let t = call w2.outside service m in
      let w3 = record w2 { outside = t.outside } in
      let called : IsSound w3 = rest-IsSound r w2 w3 refl refl refl drawn in
      if-intro IsSound (((t.ret == k.ret_ok) && t.taken) && active) _ w3
        (λ _. take_request_end-IsSound service m null t.header (draw_span_id r w1).0 w3 called)
        (λ _. called)

  -- Taking a request keeps both rings valid and the buffer of pending contexts within its bounds,
  -- whatever the middleware returns and the state of the tracer is.
  pub rmw_take_request-IsSound :
      (service m : ℕ) (null : Bool) (w : World U)
      → IsSound w
      → IsSound (rmw_take_request k underlying r service m null w).2
  unfolding rmw_take_request
  rmw_take_request-IsSound service m null w s =
      take_request_loaded-IsSound underlying.take_request service m null w s

  send_response_end-IsSound :
      (service m : ℕ) (null : Bool) (n : ℕ) (c : TraceContext) (w : World U)
      → IsSound w
      → IsSound (send_response_end k underlying r service m null n c w)
  unfolding send_response_end
  send_response_end-IsSound service m null n c w s =
      emit_exited-IsSound r _ _ (push_one-IsSound r _ w s)

  send_response_loaded-IsSound :
      (send : Option (U → ℕ → Bool → ℕ → ℕ → ℕ × U)) (service m : ℕ) (null : Bool) (n : ℕ)
      (w : World U)
      → IsSound w
      → IsSound (send_response_loaded k underlying r send service m null n w).1
  unfolding send_response_loaded check_tracing
  send_response_loaded-IsSound none service m null n w s = s
  send_response_loaded-IsSound (some send) service m null n w s =
      let w1 = (check_tracing w).1 in
      let active = (check_tracing w).0 in
      let minted = get_or_mint_trace_context r.seed_nanos r.thread_id w1.thread in
      let w2 = if active then (record w1 { thread = minted.1 }) else w1 in
      let ready : IsSound w2 =
        if-intro IsSound active _ _
          (λ _.
            rest-IsSound r w _ refl refl
              (get_or_mint_trace_context_lem r.seed_nanos r.thread_id w1.thread).2 s)
          (λ _. rest-IsSound r w _ refl refl refl s) in
      let t = send w2.outside service null n m in
      let w3 = record w2 { outside = t.1 } in
      let called : IsSound w3 = rest-IsSound r w2 w3 refl refl refl ready in
      if-intro IsSound ((t.0 == k.ret_ok) && active) _ w3
        (λ _. send_response_end-IsSound service m null n minted.0 w3 called) (λ _. called)

  -- The same of sending a response.
  pub rmw_send_response-IsSound :
      (service m : ℕ) (null : Bool) (n : ℕ) (w : World U)
      → IsSound w
      → IsSound (rmw_send_response k underlying r service m null n w).1
  unfolding rmw_send_response
  rmw_send_response-IsSound service m null n w s =
      send_response_loaded-IsSound underlying.send_response service m null n w s
