-- ===== src/Queue.antt =====
-- include/rmw_robotops/trace_event_queue.hpp and the same ring in
-- src/trace_context_change_publisher.cpp: the lock-free bounded queue, as one thread runs it.
pub mod Fifo
pub mod Valid
pub mod Refine
pub mod Race
use rmw_robotops.Base.{
  ℕ, zero, suc, ◌+◌, ◌-◌, ◌%◌, Bool, true, false, not, ◌&&◌, Option, none, some, List, [], ◌∷◌, leb,
  ◌==◌, if◌then◌else◌, get_or, set, replicate,
}

-- The members of `LockFreeQueue`; `buffer` has `Capacity` slots.
pub record LockFreeQueue {ℓ} (A : Type ℓ) : Type ℓ where
  pub buffer : List A
  pub head : ℕ
  pub tail : ℕ

-- `Capacity`, and the element that the constructor of the buffer leaves in each slot.
module _ {ℓ} {A : Type ℓ} (capacity : ℕ) (blank : A) where
  pub empty_queue : LockFreeQueue A
  empty_queue = record { buffer = replicate capacity blank; head = 0; tail = 0 }

  -- The retry loop. `compare_exchange_weak` may fail for no reason: `spurious` says on which of the
  -- attempts left it does. A failed exchange reloads `current_tail`.
  pub push_attempts : (ℕ → Bool) → ℕ → ℕ → LockFreeQueue A → A → Bool × LockFreeQueue A
  push_attempts spurious zero current_tail q event = (false, q)
  push_attempts spurious (suc left) current_tail q event =
      let next_tail = (current_tail + 1) % capacity in
      let retry = push_attempts spurious left q.tail q event in
      if next_tail == q.head
      then (false, q)
      else (if (q.tail == current_tail) && not (spurious left)
          then (true, record q { tail = next_tail; buffer = set q.buffer current_tail event })
          else retry)

  pub try_push : (ℕ → Bool) → LockFreeQueue A → A → Bool × LockFreeQueue A
  try_push spurious q event = push_attempts spurious 100 q.tail q event

  -- The option is the event that goes out, with the result `true`.
  pub try_pop : LockFreeQueue A → Option A × LockFreeQueue A
  try_pop q =
      if q.head == q.tail
      then (none, q)
      else (some (get_or q.buffer q.head blank), record q { head = (q.head + 1) % capacity })

  pub size : LockFreeQueue A → ℕ
  size q = if leb q.head q.tail then q.tail - q.head else capacity - q.head + q.tail

  pub is_empty : LockFreeQueue A → Bool
  is_empty q = q.head == q.tail
