-- ===== src/Publish/Sound.antt =====
-- A publish keeps the invariant of the shared state.
use rmw_robotops.Base.{ℕ, [], Option, none, some, refl, if-intro}
use rmw_robotops.Context.Mint.{get_or_mint_trace_context_lem}
use rmw_robotops.Context.Pending.{collect-save_all, save_all}
use rmw_robotops.Events.{max_span_links}
use rmw_robotops.Publish.{
  Publisher, Begun, publish_begin, publish_end, publish_through, publish_loaded, rmw_publish,
}
use rmw_robotops.World.{World, Readings, Constants, Underlying, check_tracing, draw_span_id}
use rmw_robotops.World.Sound.{IsSound, rest-IsSound, push_pair-IsSound, emit_exited-IsSound}

module _ {U : Type 0} (k : Constants) (underlying : Underlying U) (r : Readings) where
  publish_end-IsSound :
      (p : Publisher) (m : ℕ) (b : Begun) (w : World U)
      → IsSound w
      → IsSound (publish_end k underlying r p m b w)
  unfolding publish_end save_all
  publish_end-IsSound p m b w s = emit_exited-IsSound r _ _ (
      push_pair-IsSound r _ _ _ (record {
        events = s.events;
        changes = s.changes;
        pending = (collect-save_all [] max_span_links w.thread s.pending).1;
      }))

  publish_begin-IsSound :
      (p : Publisher) (m : ℕ) (w : World U)
      → IsSound w
      → IsSound (publish_begin k underlying r p m w).1
  unfolding publish_begin draw_span_id
  publish_begin-IsSound p m w s =
      rest-IsSound r w _ refl refl
        (get_or_mint_trace_context_lem r.seed_nanos r.thread_id w.thread).2 s

  publish_through-IsSound :
      (send : U → ℕ → ℕ → ℕ × U) (p : Publisher) (m : ℕ) (b : Option Begun) (w : World U)
      → IsSound w
      → IsSound (publish_through k underlying r send p m b w).1
  unfolding publish_through
  publish_through-IsSound send p m none w s = rest-IsSound r w _ refl refl refl s
  publish_through-IsSound send p m (some b) w s =
      let sent = record w { outside = (send w.outside p.address m).1 } in
      let kept : IsSound sent = rest-IsSound r w sent refl refl refl s in
      if-intro IsSound _ _ _ (λ _. publish_end-IsSound p m b sent kept) (λ _. kept)

  publish_loaded-IsSound :
      (send : Option (U → ℕ → ℕ → ℕ × U)) (p : Publisher) (m : ℕ) (w : World U)
      → IsSound w
      → IsSound (publish_loaded k underlying r send p m w).1
  unfolding publish_loaded check_tracing
  publish_loaded-IsSound none p m w s = s
  publish_loaded-IsSound (some send) p m w s =
      let w1 = (check_tracing w).1 in
      let checked : IsSound w1 = rest-IsSound r w w1 refl refl refl s in
      if-intro (λ (v : ℕ × World U). IsSound v.1) (check_tracing w).0 _ _
        (λ _. publish_through-IsSound send p m (some _) _ (publish_begin-IsSound p m w1 checked))
        (λ _. publish_through-IsSound send p m none w1 checked)

  -- Whatever the middleware returns and the state of the tracer is, a publish keeps both rings valid
  -- and the buffer of pending contexts within its bounds.
  pub rmw_publish-IsSound :
      (p : Publisher) (m : ℕ) (w : World U)
      → IsSound w
      → IsSound (rmw_publish k underlying r p m w).1
  unfolding rmw_publish
  rmw_publish-IsSound p m w s = publish_loaded-IsSound underlying.publish p m w s
