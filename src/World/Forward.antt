-- ===== src/World/Forward.antt =====
-- The calls as they would be without the tracer: the middleware's call alone, on the part of the
-- state that is left of ../World.antt.
use rmw_robotops.Base.{ℕ, Bool, false, Option, none, some}
use rmw_robotops.World.{World, Constants, Taken}
use rmw_robotops.World.Frame.{Untraced, untraced}

module _ {U : Type 0} where
  -- Publish, and the sending of a response.
  unfoldable pub forward :
      Constants → Option (U → ℕ → ℕ → ℕ × U) → ℕ → ℕ → Untraced U → ℕ × Untraced U
  forward k none entity message v = (k.ret_error, v)
  forward k (some send) entity message v =
      let (ret, u) = send v.outside entity message in (ret, record v { outside = u })

  unfoldable pub forward_request :
      Constants → Option (U → ℕ → ℕ → ℕ × ℕ × U) → ℕ → ℕ → Untraced U → ℕ × ℕ × Untraced U
  forward_request k none entity message v = (k.ret_error, 0, v)
  forward_request k (some send) entity message v =
      let (ret, sequence_id, u) = send v.outside entity message in
      (ret, sequence_id, record v { outside = u })

  unfoldable pub forward_take :
      {H : Type 0}
      → Constants
      → Option (U → ℕ → ℕ → Taken U H)
      → ℕ
      → ℕ
      → Untraced U
      → ℕ × Bool × Untraced U
  forward_take k none entity message v = (k.ret_error, false, v)
  forward_take k (some call) entity message v =
      let t = call v.outside entity message in (t.ret, t.taken, record v { outside = t.outside })

  abbrev pub seen : ℕ × World U → ℕ × Untraced U
  seen v = (v.0, untraced v.1)

  -- The same of a call that has a second result.
  abbrev pub seen_with : {A : Type 0} → ℕ × A × World U → ℕ × A × Untraced U
  seen_with v = (v.0, v.1, untraced v.2)
