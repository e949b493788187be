-- ===== src/Exporter.antt =====
-- The background threads of src/trace_publisher.cpp and src/trace_context_change_publisher.cpp, which
-- drain the two queues into a publisher of the middleware, while no producer runs.
pub mod Drain
pub mod Frame
pub mod Message
use rmw_robotops.Base.{ℕ, zero, suc, Option, none, some}
use rmw_robotops.Queue.{LockFreeQueue, try_pop}

pub when_some : {A B : Type 0} → Option A → B → (A → B) → B
when_some none b f = b
when_some (some a) b f = f a

-- `convert` is `convert_to_ros_message`, `none` where it fails; `publish` is the call of the
-- middleware on the thread's publisher, `none` while either is missing. Its code is not looked at.
module _ {A M U : Type 0} (capacity : ℕ) (blank : A) (convert : A → Option M)
    (publish : Option (M → U → U)) where
  pub export_event : A → U → U
  unfolding when_some
  export_event event u =
      when_some (convert event) u (λ msg. when_some publish u (λ send. send msg u))

  -- One round of the first loop. An empty queue makes the thread sleep.
  pub poll : LockFreeQueue A → U → LockFreeQueue A × U
  poll q u =
      let (out, q') = try_pop capacity blank q in
      when_some out (q', u) (λ event. (q', export_event event u))

  -- The first loop, for as many rounds as the flag is found set.
  pub poll_while : ℕ → LockFreeQueue A → U → LockFreeQueue A × U
  poll_while zero q u = (q, u)
  poll_while (suc rounds) q u = let (q', u') = poll q u in poll_while rounds q' u'

  -- The second loop, up to the first pop that finds nothing.
  pub drain : ℕ → LockFreeQueue A → U → LockFreeQueue A × U
  drain zero q u = (q, u)
  drain (suc fuel) q u =
      let (out, q') = try_pop capacity blank q in
      when_some out (q', u) (λ event. drain fuel q' (export_event event u))

  -- The queue holds fewer events than it has slots: so many pops drain it.
  pub publisher_thread_func : ℕ → LockFreeQueue A → U → LockFreeQueue A × U
  publisher_thread_func rounds q u = let (q', u') = poll_while rounds q u in drain capacity q' u'
