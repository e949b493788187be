-- ===== src/Take/Transparent.antt =====
-- What a take does to the caller and to the middleware: what the call of the middleware does.
use rmw_robotops.Base.{ℕ, Bool, Option, none, some, ◌≡◌, refl, ap, ◌∙◌, arith}
use rmw_robotops.Text.{Text}
use rmw_robotops.Context.{TraceContext}
use rmw_robotops.Take.{
  Subscription, CorrelationMetadata, take_context, save_other_trace, take_emit, take_end,
  take_loaded, rmw_take_with_info,
}
use rmw_robotops.World.{
  World, Readings, Constants, Underlying, Taken, MessageInfo, check_tracing, draw_span_id,
  draw_trace_id,
}
use rmw_robotops.World.Forward.{forward_take, seen_with}
use rmw_robotops.World.Frame.{untraced, if-untraced, push_pair-untraced, emit_entered-untraced}

module _ {U : Type 0} (k : Constants) (underlying : Underlying U) (r : Readings) where
  take_context-untraced :
      (id : Text) (w : World U) → untraced (take_context k underlying r id w).1 ≡ untraced w
  unfolding take_context draw_trace_id
  take_context-untraced id w = ground arith

  save_other_trace-untraced :
      (c : TraceContext) (w : World U) → untraced (save_other_trace k underlying r c w) ≡ untraced w
  unfolding save_other_trace
  save_other_trace-untraced c w = if-untraced _ w _ refl

  take_emit-untraced :
      (s : Subscription) (m : ℕ) (id : Text) (cm : CorrelationMetadata) (c : TraceContext)
      (w : World U)
      → untraced (take_emit k underlying r s m id cm c w) ≡ untraced w
  unfolding take_emit
  take_emit-untraced s m id cm c w = emit_entered-untraced r c _ _ ∙ push_pair-untraced r _ _ _

  take_end-untraced :
      (s : Subscription) (m : ℕ) (null : Bool) (info : MessageInfo) (id : Text) (w : World U)
      → untraced (take_end k underlying r s m null info id w) ≡ untraced w
  unfolding take_end
  take_end-untraced s m null info id w =
      take_emit-untraced s m id _ _ _ ∙ (save_other_trace-untraced _ _ ∙ take_context-untraced id w)

  take_loaded-seen :
      (call : Option (U → ℕ → ℕ → Taken U MessageInfo)) (s : Subscription) (m : ℕ) (null : Bool)
      (w : World U)
      → seen_with (take_loaded k underlying r call s m null w)
        ≡ forward_take k call s.address m (untraced w)
  unfolding take_loaded check_tracing draw_span_id forward_take
  take_loaded-seen none s m null w = refl
  take_loaded-seen (some call) s m null w =
      let v = take_loaded k underlying r (some call) s m null w in
      ap (λ x. (v.0, v.1, x)) (if-untraced _ _ _ (take_end-untraced s m null _ _ _))
      ∙ ap (forward_take k (some call) s.address m) (
          if-untraced (check_tracing w).0 (check_tracing w).1 (draw_span_id r (check_tracing w).1).1
            refl)

  -- A take returns the code and the taken flag of the middleware's take and leaves its state as that
  -- call leaves it, whatever the tracer does and in whatever state it is; no cached metadata changes.
  -- Where the call is not loaded, the code is the error and none of this changes.
  pub rmw_take_with_info_forwards :
      (s : Subscription) (m : ℕ) (null : Bool) (w : World U)
      → seen_with (rmw_take_with_info k underlying r s m null w)
        ≡ forward_take k underlying.take_with_info s.address m (untraced w)
  unfolding rmw_take_with_info
  rmw_take_with_info_forwards s m null w = take_loaded-seen underlying.take_with_info s m null w
