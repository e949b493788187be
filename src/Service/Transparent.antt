-- ===== src/Service/Transparent.antt =====
-- What a service's calls do to the caller and to the middleware: what the calls of the middleware do.
use rmw_robotops.Base.{ℕ, Bool, Option, none, some, ◌≡◌, refl, ap, ◌∙◌}
use rmw_robotops.Text.{Text}
use rmw_robotops.Context.{TraceContext}
use rmw_robotops.Service.{
  take_request_end, take_request_loaded, rmw_take_request, send_response_end, send_response_loaded,
  rmw_send_response,
}
use rmw_robotops.World.{
  World, Readings, Constants, Underlying, Taken, ServiceInfo, check_tracing, draw_span_id,
}
use rmw_robotops.World.Forward.{forward, forward_take, seen, seen_with}
use rmw_robotops.World.Frame.{
  untraced, if-untraced, push_one-untraced, emit_entered-untraced, emit_exited-untraced,
}

-- The middleware's call, given a request header: whether it is null, and its sequence number.
unfoldable pub with_header :
    {U : Type 0} → Bool → ℕ → Option (U → ℕ → Bool → ℕ → ℕ → ℕ × U) → Option (U → ℕ → ℕ → ℕ × U)
with_header null n none = none
with_header null n (some send) = some (λ u service message. send u service null n message)

module _ {U : Type 0} (k : Constants) (underlying : Underlying U) (r : Readings) where
  take_request_end-untraced :
      (service m : ℕ) (null : Bool) (header : ServiceInfo) (span : Text) (w : World U)
      → untraced (take_request_end k underlying r service m null header span w) ≡ untraced w
  unfolding take_request_end
  take_request_end-untraced service m null header span w =
      emit_entered-untraced r _ _ _ ∙ push_one-untraced r _ _

  take_request_loaded-seen :
      (call : Option (U → ℕ → ℕ → Taken U ServiceInfo)) (service m : ℕ) (null : Bool) (w : World U)
      → seen_with (take_request_loaded k underlying r call service m null w)
        ≡ forward_take k call service m (untraced w)
  unfolding take_request_loaded check_tracing draw_span_id forward_take
  take_request_loaded-seen none service m null w = refl
  take_request_loaded-seen (some call) service m null w =
      let v = take_request_loaded k underlying r (some call) service m null w in
      ap (λ x. (v.0, v.1, x)) (if-untraced _ _ _ (take_request_end-untraced service m null _ _ _))
      ∙ ap (forward_take k (some call) service m) (if-untraced (check_tracing w).0 _ _ refl)

  -- Taking a request returns the code and the taken flag of the middleware and leaves its state as
  -- that call alone leaves it, whatever the tracer does; no cached metadata changes. Where the call is
  -- not loaded, the code is the error and none of this changes.
  pub rmw_take_request_forwards :
      (service m : ℕ) (null : Bool) (w : World U)
      → seen_with (rmw_take_request k underlying r service m null w)
        ≡ forward_take k underlying.take_request service m (untraced w)
  unfolding rmw_take_request
  rmw_take_request_forwards service m null w =
      take_request_loaded-seen underlying.take_request service m null w

  send_response_end-untraced :
      (service m : ℕ) (null : Bool) (n : ℕ) (c : TraceContext) (w : World U)
      → untraced (send_response_end k underlying r service m null n c w) ≡ untraced w
  unfolding send_response_end
  send_response_end-untraced service m null n c w =
      emit_exited-untraced r _ _ ∙ push_one-untraced r _ _

  send_response_loaded-seen :
      (send : Option (U → ℕ → Bool → ℕ → ℕ → ℕ × U)) (service m : ℕ) (null : Bool) (n : ℕ)
      (w : World U)
      → seen (send_response_loaded k underlying r send service m null n w)
        ≡ forward k (with_header null n send) service m (untraced w)
  unfolding send_response_loaded check_tracing forward with_header
  send_response_loaded-seen none service m null n w = refl
  send_response_loaded-seen (some send) service m null n w =
      ap (λ x. ((send_response_loaded k underlying r (some send) service m null n w).0, x))
        (if-untraced _ _ _ (send_response_end-untraced service m null n _ _))
      ∙ ap (forward k (with_header null n (some send)) service m)
          (if-untraced (check_tracing w).0 _ _ refl)

  -- Sending a response returns the code of the middleware, which is handed the request header as it
  -- is, and leaves the state of the middleware as that call alone leaves it, whatever the tracer does;
  -- no cached metadata changes. Where the call is not loaded, the code is the error and none of this
  -- changes.
  pub rmw_send_response_forwards :
      (service m : ℕ) (null : Bool) (n : ℕ) (w : World U)
      → seen (rmw_send_response k underlying r service m null n w)
        ≡ forward k (with_header null n underlying.send_response) service m (untraced w)
  unfolding rmw_send_response
  rmw_send_response_forwards service m null n w =
      send_response_loaded-seen underlying.send_response service m null n w
