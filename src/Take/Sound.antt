-- ===== src/Take/Sound.antt =====
-- A take keeps the invariant of the shared state.
use mathlib.Core.Path.{subst}
use rmw_robotops.Base.{
  ◌==◌, ◌&&◌, arith, sym, if◌then◌else◌, ℕ, Bool, Option, none, some, refl, if-intro,
}
use rmw_robotops.Text.{Text}
use rmw_robotops.Context.{set_trace_context}
use rmw_robotops.Take.{
  Subscription, take_emit, take_end, take_loaded, take_context, save_other_trace,
  rmw_take_with_info,
}
use rmw_robotops.Take.Links.{save_other_trace_never, take_context-pending}
use rmw_robotops.World.{
  World, Readings, Constants, Underlying, Taken, MessageInfo, check_tracing, draw_span_id,
  draw_trace_id,
}
use rmw_robotops.World.Sound.{IsSound, rest-IsSound, push_pair-IsSound, emit_entered-IsSound}

module _ {U : Type 0} (k : Constants) (underlying : Underlying U) (r : Readings) where
  take_context-IsSound :
      (id : Text) (w : World U) → IsSound w → IsSound (take_context k underlying r id w).1
  unfolding take_context draw_trace_id
  take_context-IsSound id w s =
      rest-IsSound r w (take_context k underlying r id w).1 (ground arith) (ground arith)
        (take_context-pending k underlying r id w) s

  take_end-IsSound :
      (p : Subscription) (m : ℕ) (null : Bool) (info : MessageInfo) (id : Text) (w : World U)
      → IsSound w
      → IsSound (take_end k underlying r p m null info id w)
  unfolding take_end take_emit set_trace_context
  take_end-IsSound p m null info id w s =
      let v = take_context k underlying r id w in
      let saved : IsSound (save_other_trace k underlying r v.0 v.1) =
        subst IsSound (sym (save_other_trace_never k underlying r id w))
          (take_context-IsSound id w s) in
      emit_entered-IsSound r _ _ _ (
        push_pair-IsSound r _ _ _
          (rest-IsSound r (save_other_trace k underlying r v.0 v.1) _ refl refl refl saved))

  take_loaded-IsSound :
      (call : Option (U → ℕ → ℕ → Taken U MessageInfo)) (p : Subscription) (m : ℕ) (null : Bool)
      (w : World U)
      → IsSound w
      → IsSound (take_loaded k underlying r call p m null w).2
  unfolding take_loaded check_tracing draw_span_id
  take_loaded-IsSound none p m null w s = s
  take_loaded-IsSound (some call) p m null w s =
      let w1 = (check_tracing w).1 in
      let active = (check_tracing w).0 in
      let w2 = if active then (draw_span_id r w1).1 else w1 in
      let drawn : IsSound w2 =
        if-intro IsSound active _ _ (λ _. rest-IsSound r w _ refl refl refl s)
          (λ _. rest-IsSound r w _ refl refl refl s) in
      let t = call w2.outside p.address m in
      let w3 = record w2 { outside = t.outside } in
      let called : IsSound w3 = rest-IsSound r w2 w3 refl refl refl drawn in
      if-intro IsSound (((t.ret == k.ret_ok) && t.taken) && active) _ w3
        (λ _. take_end-IsSound p m null t.header (draw_span_id r w1).0 w3 called) (λ _. called)

  -- Whatever the middleware returns and the state of the tracer is, a take keeps both rings valid and
  -- the buffer of pending contexts within its bounds.
  pub rmw_take_with_info-IsSound :
      (p : Subscription) (m : ℕ) (null : Bool) (w : World U)
      → IsSound w
      → IsSound (rmw_take_with_info k underlying r p m null w).2
  unfolding rmw_take_with_info
  rmw_take_with_info-IsSound p m null w s =
      take_loaded-IsSound underlying.take_with_info p m null w s
