-- ===== src/Queue/Fifo.antt =====
-- The contract of the queue: a FIFO that holds one event fewer than `Capacity`.
use rmw_robotops.Base.{
  ℕ, suc, ◌≡◌, ◌≢◌, ne→==, eq→==, Bool, true, false, Option, none, some, List, [], ◌∷◌, ◌++◌, ◌==◌,
  if◌then◌else◌, length,
}

pub data Op {ℓ} (A : Type ℓ) : Type ℓ where
  push : A → Op A
  pop : Op A

-- What a client sees of a call.
pub data Reply {ℓ} (A : Type ℓ) : Type ℓ where
  pushed : Bool → Reply A
  popped : Option A → Reply A

module _ {ℓ} {A : Type ℓ} where
  unfoldable pub dequeue : List A → Option A × List A
  dequeue [] = (none, [])
  dequeue (x ∷ xs) = (some x, xs)

module _ {ℓ} {A : Type ℓ} (capacity : ℕ) where
  unfoldable pub enqueue : List A → A → Bool × List A
  enqueue xs x = if suc (length xs) == capacity then (false, xs) else (true, xs ++ x ∷ [])

  unfoldable pub serve : List A → List (Op A) → List (Reply A)
  serve xs [] = []
  serve xs (push x ∷ ops) = let (done, ys) = enqueue xs x in pushed done ∷ serve ys ops
  serve xs (pop ∷ ops) = let (out, ys) = dequeue xs in popped out ∷ serve ys ops

  pub enqueue_room :
      (xs : List A) (x : A) → suc (length xs) ≢ capacity → enqueue xs x ≡ (true, xs ++ x ∷ [])
  unfolding enqueue
  enqueue_room xs x h = rw (ne→== (suc (length xs)) capacity h)

  pub enqueue_full : (xs : List A) (x : A) → suc (length xs) ≡ capacity → enqueue xs x ≡ (false, xs)
  unfolding enqueue
  enqueue_full xs x h = rw (eq→== (suc (length xs)) capacity h)
