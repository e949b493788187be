-- ===== src/Take/Links.antt =====
-- What a take does to the trace context of its thread and to the contexts that wait to become links.
use rmw_robotops.Base.{
  ℕ, Bool, true, false, not, Option, none, some, ◌≡◌, refl, ap, ◌∙◌, if-intro, arith, take, eq→==,
}
use rmw_robotops.Text.{Text, fill, same_text, same_text_refl}
use rmw_robotops.Context.{TraceContext, Thread, is_empty, get_trace_context, set_trace_context}
use rmw_robotops.Context.Pending.{take-take}
use rmw_robotops.Endpoint.{emit_entered}
use rmw_robotops.Take.{
  Subscription, CorrelationMetadata, take_context, save_other_trace, take_emit, take_end,
  take_loaded, rmw_take_with_info,
}
use rmw_robotops.World.{
  World, Readings, Constants, Underlying, Taken, MessageInfo, check_tracing, draw_span_id,
  draw_trace_id, enqueue_context_change,
}
use rmw_robotops.World.Frame.{push_pair-thread, if-keeps}

module _ {U : Type 0} (k : Constants) (underlying : Underlying U) (r : Readings) where
  -- The context of the thread goes on in the same trace, if there is one.
  take_context_same :
      (id : Text) (w : World U)
      → is_empty w.thread.context ≡ false
      → take_context k underlying r id w ≡ (
        record {
          trace_id = fill 33 w.thread.context.trace_id;
          span_id = fill 17 id;
          parent_span_id = fill 17 w.thread.context.span_id;
        },
        w,
      )
  unfolding take_context get_trace_context
  take_context_same id w e = rw e refl

  same_trace : (x y : Text) → y ≡ fill 33 x → same_text (take 32 x) (take 32 y) ≡ true
  unfolding fill
  same_trace x y e = rw (e, take-take 32 32 x (omega arith)) (same_text_refl (take 32 x))

  save_other_trace_empty :
      (c : TraceContext) (w : World U)
      → is_empty w.thread.context ≡ true
      → save_other_trace k underlying r c w ≡ w
  unfolding save_other_trace get_trace_context
  save_other_trace_empty c w e = rw e refl

  save_other_trace_same :
      (c : TraceContext) (w : World U)
      → c.trace_id ≡ fill 33 w.thread.context.trace_id
      → save_other_trace k underlying r c w ≡ w
  unfolding save_other_trace get_trace_context fill
  save_other_trace_same c w e =
      let same = same_trace w.thread.context.trace_id c.trace_id e in ground arith

  take_emit-thread :
      (s : Subscription) (m : ℕ) (id : Text) (cm : CorrelationMetadata) (c : TraceContext)
      (w : World U)
      → (take_emit k underlying r s m id cm c w).thread ≡ w.thread
  unfolding take_emit emit_entered enqueue_context_change
  take_emit-thread s m id cm c w = push_pair-thread r _ _ _

  -- The guard never holds: the trace of the new context is the trace of the thread, or the thread
  -- has none.
  pub save_other_trace_never :
      (id : Text) (w : World U)
      → let v = take_context k underlying r id w in save_other_trace k underlying r v.0 v.1 ≡ v.1
  unfolding take_context get_trace_context draw_trace_id
  save_other_trace_never id w =
      if-intro (λ (v : TraceContext × World U). save_other_trace k underlying r v.0 v.1 ≡ v.1)
        (not (is_empty w.thread.context)) _ _ (λ _. save_other_trace_same _ w refl)
        (λ e. save_other_trace_empty _ _ (ground arith))

  take_end-thread :
      (s : Subscription) (m : ℕ) (null : Bool) (info : MessageInfo) (id : Text) (w : World U)
      → let (c, w') = take_context k underlying r id w in
        (take_end k underlying r s m null info id w).thread ≡ set_trace_context c w'.thread
  unfolding take_end
  take_end-thread s m null info id w =
      take_emit-thread s m id _ _ _
      ∙ ap (λ (v : World U). set_trace_context (take_context k underlying r id w).0 v.thread)
          (save_other_trace_never id w)

  pub take_context-pending :
      (id : Text) (w : World U)
      → (take_context k underlying r id w).1.thread.pending ≡ w.thread.pending
  unfolding take_context draw_trace_id
  take_context-pending id w = ground arith

  set_trace_context-pending :
      (c : TraceContext) (t : Thread) → (set_trace_context c t).pending ≡ t.pending
  unfolding set_trace_context
  set_trace_context-pending c t = refl

  take_loaded-pending :
      (call : Option (U → ℕ → ℕ → Taken U MessageInfo)) (s : Subscription) (m : ℕ) (null : Bool)
      (w : World U)
      → (take_loaded k underlying r call s m null w).2.thread.pending ≡ w.thread.pending
  unfolding take_loaded check_tracing draw_span_id
  take_loaded-pending none s m null w = refl
  take_loaded-pending (some call) s m null w =
      if-keeps (λ v. v.thread.pending) _ _ _
        (ap (λ (t : Thread). t.pending) (take_end-thread s m null _ _ _)
          ∙ (set_trace_context-pending _ _ ∙ take_context-pending _ _))
      ∙ if-keeps (λ v. v.thread.pending) (check_tracing w).0 _ _ refl

  -- No take saves a context to be linked, whatever trace the thread is in and whatever the middleware
  -- returns: the contexts that wait are the same before and after.
  pub rmw_take_with_info-pending :
      (s : Subscription) (m : ℕ) (null : Bool) (w : World U)
      → (rmw_take_with_info k underlying r s m null w).2.thread.pending ≡ w.thread.pending
  unfolding rmw_take_with_info
  rmw_take_with_info-pending s m null w = take_loaded-pending underlying.take_with_info s m null w

  take_loaded-context :
      (call : U → ℕ → ℕ → Taken U MessageInfo) (s : Subscription) (m : ℕ) (null : Bool)
      (w : World U)
      → (check_tracing w).0 ≡ true
      → (call w.outside s.address m).ret ≡ k.ret_ok
      → (call w.outside s.address m).taken ≡ true
      → is_empty w.thread.context ≡ false
      → (take_loaded k underlying r (some call) s m null w).2.thread.context ≡ record {
        trace_id = fill 33 w.thread.context.trace_id;
        span_id = fill 17 (draw_span_id r w).0;
        parent_span_id = fill 17 w.thread.context.span_id;
      }
  unfolding take_loaded check_tracing draw_span_id set_trace_context
  take_loaded-context call s m null w on ok taken in_trace =
      rw (on, eq→== _ _ ok, taken)
        (ap (λ (t : Thread). t.context) (take_end-thread s m null _ _ _)
          ∙ ap (λ (v : TraceContext × World U). v.0) (take_context_same _ _ in_trace))

  -- Where tracing is on and the middleware delivers a message into a thread that is in a trace, the
  -- thread goes on in this trace, in a span of its own below the span that it was in.
  pub rmw_take_with_info-context :
      (call : U → ℕ → ℕ → Taken U MessageInfo) (s : Subscription) (m : ℕ) (null : Bool)
      (w : World U)
      → underlying.take_with_info ≡ some call
      → (check_tracing w).0 ≡ true
      → (call w.outside s.address m).ret ≡ k.ret_ok
      → (call w.outside s.address m).taken ≡ true
      → is_empty w.thread.context ≡ false
      → (rmw_take_with_info k underlying r s m null w).2.thread.context ≡ record {
        trace_id = fill 33 w.thread.context.trace_id;
        span_id = fill 17 (draw_span_id r w).0;
        parent_span_id = fill 17 w.thread.context.span_id;
      }
  unfolding rmw_take_with_info
  rmw_take_with_info-context call s m null w loaded on ok taken in_trace =
      ap (λ f. (take_loaded k underlying r f s m null w).2.thread.context) loaded
      ∙ take_loaded-context call s m null w on ok taken in_trace
