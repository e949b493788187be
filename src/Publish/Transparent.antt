-- ===== src/Publish/Transparent.antt =====
-- What a publish does to the caller and to the middleware: what the call of the middleware does.
use rmw_robotops.Base.{ℕ, Option, none, some, ◌≡◌, refl, ap, ◌∙◌, if-intro}
use rmw_robotops.Text.{Text}
use rmw_robotops.Publish.{
  Publisher, Begun, publish_begin, publish_end, publish_through, publish_loaded, rmw_publish,
  serialized_end, serialized_loaded, rmw_publish_serialized_message,
}
use rmw_robotops.World.{World, Readings, Constants, Underlying, check_tracing, draw_span_id}
use rmw_robotops.World.Forward.{forward, seen}
use rmw_robotops.World.Frame.{untraced, if-untraced, push_pair-untraced, emit_exited-untraced}

module _ {U : Type 0} (k : Constants) (underlying : Underlying U) (r : Readings) where
  publish_end-untraced :
      (p : Publisher) (m : ℕ) (b : Begun) (w : World U)
      → untraced (publish_end k underlying r p m b w) ≡ untraced w
  unfolding publish_end
  publish_end-untraced p m b w = emit_exited-untraced r _ _ ∙ push_pair-untraced r _ _ _

  publish_loaded-seen :
      (send : Option (U → ℕ → ℕ → ℕ × U)) (p : Publisher) (m : ℕ) (w : World U)
      → seen (publish_loaded k underlying r send p m w) ≡ forward k send p.address m (untraced w)
  unfolding publish_loaded publish_through publish_begin check_tracing draw_span_id forward
  publish_loaded-seen none p m w = refl
  publish_loaded-seen (some send) p m w =
      if-intro (λ v. seen v ≡ forward k (some send) p.address m (untraced w)) (check_tracing w).0 _
        _
        (λ _.
          ap (λ x. ((send w.outside p.address m).0, x))
            (if-untraced _ _ _ (publish_end-untraced p m _ _)))
        (λ _. refl)

  -- A publish returns the code of the middleware's publish and leaves its state as that call leaves
  -- it, whatever the tracer does and in whatever state it is; no cached metadata changes. Where the
  -- call is not loaded, the code is the error and none of this changes.
  pub rmw_publish_forwards :
      (p : Publisher) (m : ℕ) (w : World U)
      → seen (rmw_publish k underlying r p m w)
        ≡ forward k underlying.publish p.address m (untraced w)
  unfolding rmw_publish
  rmw_publish_forwards p m w = publish_loaded-seen underlying.publish p m w

  serialized_end-untraced :
      (p : Publisher) (m : ℕ) (id : Text) (hash : ℕ) (w : World U)
      → untraced (serialized_end k underlying r p m id hash w) ≡ untraced w
  unfolding serialized_end
  serialized_end-untraced p m id hash w = push_pair-untraced r _ _ _

  serialized_loaded-seen :
      (xxh3 : Text → ℕ) (send : Option (U → ℕ → ℕ → ℕ × U)) (p : Publisher) (m : ℕ)
      (buffer : Option Text) (w : World U)
      → seen (serialized_loaded k underlying r xxh3 send p m buffer w)
        ≡ forward k send p.address m (untraced w)
  unfolding serialized_loaded check_tracing draw_span_id forward
  serialized_loaded-seen xxh3 none p m buffer w = refl
  serialized_loaded-seen xxh3 (some send) p m buffer w =
      ap (λ x. ((serialized_loaded k underlying r xxh3 (some send) p m buffer w).0, x))
        (if-untraced _ _ _ (serialized_end-untraced p m _ _ _))
      ∙ ap (forward k (some send) p.address m) (
          if-untraced (check_tracing w).0 (check_tracing w).1 (draw_span_id r (check_tracing w).1).1
            refl)

  -- The same of a publish of a serialized message, for any hash function.
  pub rmw_publish_serialized_message_forwards :
      (xxh3 : Text → ℕ) (p : Publisher) (m : ℕ) (buffer : Option Text) (w : World U)
      → seen (rmw_publish_serialized_message k underlying r xxh3 p m buffer w)
        ≡ forward k underlying.publish_serialized p.address m (untraced w)
  unfolding rmw_publish_serialized_message
  rmw_publish_serialized_message_forwards xxh3 p m buffer w =
      serialized_loaded-seen xxh3 underlying.publish_serialized p m buffer w
