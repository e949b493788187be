-- ===== src/Queue/Valid.antt =====
-- The representation invariant of the queue.
use rmw_robotops.Base.{ℕ, zero, suc, ◌<◌, ◌≡◌, Bool, arith, length, length-set, length-replicate}
use rmw_robotops.Queue.{LockFreeQueue, empty_queue, push_attempts, try_push, try_pop}

module _ {ℓ} {A : Type ℓ} (capacity : ℕ) where
  -- Both indices stay inside the buffer.
  pub record IsValid (q : LockFreeQueue A) : Type 0 where
    pub slots : length q.buffer ≡ capacity
    pub head_in : q.head < capacity
    pub tail_in : q.tail < capacity

module _ {ℓ} {A : Type ℓ} (capacity : ℕ) (blank : A) where
  -- The constructor establishes the invariant.
  pub empty_queue-IsValid : 0 < capacity → IsValid capacity (empty_queue capacity blank)
  unfolding empty_queue
  empty_queue-IsValid h = ground (arith, length-replicate capacity blank)

  pub push_attempts-IsValid :
      (spurious : ℕ → Bool) (left t : ℕ) (q : LockFreeQueue A) (event : A)
      → IsValid capacity q
      → IsValid capacity (push_attempts capacity blank spurious left t q event).1
  unfolding push_attempts
  push_attempts-IsValid spurious zero t q event v = v
  push_attempts-IsValid spurious (suc left) t q event v =
      ground
        (arith, length-set q.buffer t event, push_attempts-IsValid spurious left q.tail q event v)

  -- A push keeps the invariant, whichever exchanges fail for no reason.
  pub try_push-IsValid :
      (spurious : ℕ → Bool) (q : LockFreeQueue A) (event : A)
      → IsValid capacity q
      → IsValid capacity (try_push capacity blank spurious q event).1
  unfolding try_push
  try_push-IsValid spurious q event v = push_attempts-IsValid spurious 100 q.tail q event v

  pub try_pop-IsValid :
      (q : LockFreeQueue A) → IsValid capacity q → IsValid capacity (try_pop capacity blank q).1
  unfolding try_pop
  try_pop-IsValid q v = ground arith
