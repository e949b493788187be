-- ===== src/Client/Transparent.antt =====
-- What a client's calls do to the caller and to the middleware: what the calls of the middleware do.
use rmw_robotops.Base.{ℕ, Bool, true, false, Option, none, some, ◌≡◌, refl, ap, ◌∙◌}
use rmw_robotops.Text.{Text}
use rmw_robotops.Context.{TraceContext}
use rmw_robotops.Client.{
  remember_request, send_request_end, send_request_loaded, rmw_send_request, find_request,
  response_context, take_response_end, take_response_loaded, rmw_take_response,
}
use rmw_robotops.World.{
  World, Readings, Constants, Underlying, Taken, ServiceInfo, PendingRequest, check_tracing,
  draw_span_id, draw_trace_id,
}
use rmw_robotops.World.Forward.{forward_request, forward_take, seen_with}
use rmw_robotops.World.Frame.{untraced, if-untraced, push_one-untraced, emit_entered-untraced}

module _ {U : Type 0} (k : Constants) (underlying : Underlying U) (r : Readings) where
  remember_request-untraced :
      (null : Bool) (id : ℕ) (c : TraceContext) (span : Text) (w : World U)
      → untraced (remember_request k underlying r null id c span w) ≡ untraced w
  unfolding remember_request
  remember_request-untraced true id c span w = refl
  remember_request-untraced false id c span w = refl

  send_request_end-untraced :
      (client m : ℕ) (null : Bool) (id : ℕ) (c : TraceContext) (span : Text) (w : World U)
      → untraced (send_request_end k underlying r client m null id c span w) ≡ untraced w
  unfolding send_request_end
  send_request_end-untraced client m null id c span w =
      push_one-untraced r _ _ ∙ remember_request-untraced null id c span w

  send_request_loaded-seen :
      (send : Option (U → ℕ → ℕ → ℕ × ℕ × U)) (client m : ℕ) (null : Bool) (w : World U)
      → seen_with (send_request_loaded k underlying r send client m null w)
        ≡ forward_request k send client m (untraced w)
  unfolding send_request_loaded check_tracing draw_span_id forward_request
  send_request_loaded-seen none client m null w = refl
  send_request_loaded-seen (some send) client m null w =
      let v = send_request_loaded k underlying r (some send) client m null w in
      ap (λ x. (v.0, v.1, x)) (if-untraced _ _ _ (send_request_end-untraced client m null _ _ _ _))
      ∙ ap (forward_request k (some send) client m) (if-untraced (check_tracing w).0 _ _ refl)

  -- Sending a request returns the code and the sequence id of the middleware and leaves its state as
  -- that call alone leaves it, whatever the tracer does; no cached metadata changes. Where the call is
  -- not loaded, the code is the error and none of this changes.
  pub rmw_send_request_forwards :
      (client m : ℕ) (null : Bool) (w : World U)
      → seen_with (rmw_send_request k underlying r client m null w)
        ≡ forward_request k underlying.send_request client m (untraced w)
  unfolding rmw_send_request
  rmw_send_request_forwards client m null w =
      send_request_loaded-seen underlying.send_request client m null w

  find_request-untraced :
      (null : Bool) (n : ℕ) (w : World U)
      → untraced (find_request k underlying r null n w).1 ≡ untraced w
  unfolding find_request
  find_request-untraced true n w = refl
  find_request-untraced false n w = refl

  response_context-untraced :
      (p : Option PendingRequest) (span : Text) (w : World U)
      → untraced (response_context k underlying r p span w).1 ≡ untraced w
  unfolding response_context draw_trace_id
  response_context-untraced none span w = refl
  response_context-untraced (some p) span w = refl

  take_response_end-untraced :
      (client m : ℕ) (null : Bool) (header : ServiceInfo) (span : Text) (w : World U)
      → untraced (take_response_end k underlying r client m null header span w) ≡ untraced w
  unfolding take_response_end
  take_response_end-untraced client m null header span w =
      emit_entered-untraced r _ _ _
      ∙ (push_one-untraced r _ _
          ∙ (response_context-untraced _ span _ ∙ find_request-untraced null _ w))

  take_response_loaded-seen :
      (call : Option (U → ℕ → ℕ → Taken U ServiceInfo)) (client m : ℕ) (null : Bool) (w : World U)
      → seen_with (take_response_loaded k underlying r call client m null w)
        ≡ forward_take k call client m (untraced w)
  unfolding take_response_loaded check_tracing draw_span_id forward_take
  take_response_loaded-seen none client m null w = refl
  take_response_loaded-seen (some call) client m null w =
      let v = take_response_loaded k underlying r (some call) client m null w in
      ap (λ x. (v.0, v.1, x)) (if-untraced _ _ _ (take_response_end-untraced client m null _ _ _))
      ∙ ap (forward_take k (some call) client m) (if-untraced (check_tracing w).0 _ _ refl)

  -- The same of taking a response: the code and the taken flag are the middleware's.
  pub rmw_take_response_forwards :
      (client m : ℕ) (null : Bool) (w : World U)
      → seen_with (rmw_take_response k underlying r client m null w)
        ≡ forward_take k underlying.take_response client m (untraced w)
  unfolding rmw_take_response
  rmw_take_response_forwards client m null w =
      take_response_loaded-seen underlying.take_response client m null w
