-- ===== src/Service/Pairing.antt =====
-- The trace context that a service's request leaves to its response on the same thread.
use rmw_robotops.Base.{ℕ, Bool, true, some, [], ◌≡◌, refl, ap, sym, ◌∙◌, eq→==}
use rmw_robotops.Text.{Text, fill}
use rmw_robotops.Context.{
  TraceContext, Thread, set_trace_context, empty_context, starts_nul, is_empty,
  get_or_mint_trace_context,
}
use rmw_robotops.Endpoint.{emit_entered}
use rmw_robotops.Service.{
  take_request_end, take_request_loaded, rmw_take_request, send_response_loaded, rmw_send_response,
}
use rmw_robotops.World.{
  World, Readings, Constants, Underlying, Taken, ServiceInfo, check_tracing, draw_span_id,
  enqueue_context_change,
}
use rmw_robotops.World.Frame.{push_one-own}

module _ {U : Type 0} (k : Constants) (underlying : Underlying U) (r : Readings) where
  -- The context that a request sets: its span, and no trace.
  unfoldable pub request_context : Text → TraceContext
  request_context span = record { trace_id = []; span_id = fill 17 span; parent_span_id = [] }

  is_empty-request_context : (span : Text) → is_empty (request_context span) ≡ true
  unfolding is_empty request_context starts_nul
  is_empty-request_context span = refl

  take_request_end-thread :
      (service m : ℕ) (null : Bool) (header : ServiceInfo) (span : Text) (w : World U)
      → (take_request_end k underlying r service m null header span w).thread
        ≡ set_trace_context (request_context span) w.thread
  unfolding take_request_end emit_entered enqueue_context_change request_context
  take_request_end-thread service m null header span w = ap (λ c. c.0) (push_one-own r _ _)

  take_request_loaded-context :
      (call : U → ℕ → ℕ → Taken U ServiceInfo) (service m : ℕ) (null : Bool) (w : World U)
      → (check_tracing w).0 ≡ true
      → (call w.outside service m).ret ≡ k.ret_ok
      → (call w.outside service m).taken ≡ true
      → (take_request_loaded k underlying r (some call) service m null w).2.thread.context
        ≡ request_context (draw_span_id r w).0
  unfolding take_request_loaded check_tracing draw_span_id set_trace_context
  take_request_loaded-context call service m null w on ok taken =
      rw (on, eq→== _ _ ok, taken)
        (ap (λ (t : Thread). t.context) (take_request_end-thread service m null _ _ _))

mint_over :
    (nanos thread_id : ℕ) (t : Thread)
    → is_empty t.context ≡ true
    → get_or_mint_trace_context nanos thread_id t
      ≡ get_or_mint_trace_context nanos thread_id (set_trace_context empty_context t)
unfolding get_or_mint_trace_context set_trace_context is_empty starts_nul
mint_over nanos thread_id t e = rw e refl

-- The same state, on a thread that has no context.
abbrev pub without_context : {U : Type 0} → World U → World U
without_context w = record w { thread = set_trace_context empty_context w.thread }

module _ {U : Type 0} (k : Constants) (underlying : Underlying U) (r : Readings) where
  send_response_loaded_over :
      (send : U → ℕ → Bool → ℕ → ℕ → ℕ × U) (service m : ℕ) (null : Bool) (n : ℕ) (w : World U)
      → (check_tracing w).0 ≡ true
      → is_empty w.thread.context ≡ true
      → send_response_loaded k underlying r (some send) service m null n w
        ≡ send_response_loaded k underlying r (some send) service m null n (without_context w)
  unfolding send_response_loaded check_tracing
  send_response_loaded_over send service m null n w on e =
      rw (on, mint_over r.seed_nanos r.thread_id w.thread e)

module _ {U : Type 0} (k : Constants) (underlying : Underlying U) (r r' : Readings)
    (call : U → ℕ → ℕ → Taken U ServiceInfo) (send : U → ℕ → Bool → ℕ → ℕ → ℕ × U)
    (takes : underlying.take_request ≡ some call) (sends : underlying.send_response ≡ some send)
    (service m : ℕ) (null : Bool) (w : World U) (on : (check_tracing w).0 ≡ true)
    (ok : (call w.outside service m).ret ≡ k.ret_ok)
    (taken : (call w.outside service m).taken ≡ true) where
  abbrev served : World U
  served = (rmw_take_request k underlying r service m null w).2

  -- A request that is delivered while tracing is on leaves on its thread a context with a span id
  -- and no trace id.
  pub rmw_take_request-context :
      served.thread.context ≡ request_context k underlying r (draw_span_id r w).0
  unfolding rmw_take_request
  rmw_take_request-context =
      ap (λ f. (take_request_loaded k underlying r f service m null w).2.thread.context) takes
      ∙ take_request_loaded-context k underlying r call service m null w on ok taken

  -- The response that is sent next on the thread, while tracing is still on, does all that it would do
  -- on a thread without any context: nothing in it, its event included, depends on the span of the
  -- request.
  pub rmw_send_response-forgets_request :
      (response : ℕ) (header_is_null : Bool) (n : ℕ)
      → (check_tracing served).0 ≡ true
      → rmw_send_response k underlying r' service response header_is_null n served
        ≡ rmw_send_response k underlying r' service response header_is_null n
            (without_context served)
  unfolding rmw_send_response
  rmw_send_response-forgets_request response header_is_null n still_on =
      ap (λ f. send_response_loaded k underlying r' f service response header_is_null n served)
        sends
      ∙ send_response_loaded_over k underlying r' send service response header_is_null n served
          still_on
          (ap is_empty rmw_take_request-context
            ∙ is_empty-request_context k underlying r (draw_span_id r w).0)
      ∙ ap
          (λ f.
            send_response_loaded k underlying r' f service response header_is_null n
              (without_context served))
          (sym sends)
