-- ===== src/Queue/Refine.antt =====
-- A valid queue behaves as the FIFO of the events between `head` and `tail`.
use native.Mathlib.Nat.{mod-add-mod, mod-eq_of_lt, mod-eq-sub-mod, add-zero}
use native.Mathlib.Decide.{dec_lt, ℕ_discrete}
use rmw_robotops.Base.{
  ℕ, zero, suc, ◌+◌, ◌-◌, ◌%◌, ◌≤◌, ◌<◌, ◌≡◌, ◌≢◌, ◌↔◌, refl, ap, ◌∙◌, inl, inr, Bool, true, false,
  List, [], ◌∷◌, ◌++◌, arith, Bool-cases, length, length-append, get_or, set, get_or-set_self,
  get_or-set_ne, ltb, eq→==, ne→==, if◌then◌else◌,
}
use rmw_robotops.Queue.{LockFreeQueue, push_attempts, try_push, try_pop, size}
use rmw_robotops.Queue.Valid.{IsValid, try_push-IsValid, try_pop-IsValid}
use rmw_robotops.Queue.Fifo
use rmw_robotops.Queue.Fifo.{Op, push, pop, Reply, pushed, popped}

-- One turn round the buffer.
pub wrap :
    (capacity x : ℕ)
    → x < capacity + capacity
    → x % capacity ≡ (if ltb x capacity then x else x - capacity)
wrap capacity x h = elim (Bool-cases (ltb x capacity)) [
  | inl below ↦ rw below (mod-eq_of_lt (ground arith))
  | inr above ↦
      rw (above, mod-eq-sub-mod {n = x} {m = capacity} (ground arith)) (mod-eq_of_lt (ground arith))
]

module _ {ℓ} {A : Type ℓ} (capacity : ℕ) (blank : A) where
  -- The `n` events from index `h` on, oldest first.
  abbrev pub slots : List A → ℕ → ℕ → List A
  slots buffer h zero = []
  slots buffer h (suc n) = slots buffer h n ++ get_or buffer ((h + n) % capacity) blank ∷ []

  abbrev pub contents : LockFreeQueue A → List A
  contents q = slots q.buffer q.head (size capacity blank q)

  length-slots : (buffer : List A) (h n : ℕ) → length (slots buffer h n) ≡ n
  length-slots buffer h zero = refl
  length-slots buffer h (suc n) = omega (
    arith,
    length-append (slots buffer h n) (get_or buffer ((h + n) % capacity) blank ∷ []),
    length-slots buffer h n,
  )

  slots_front :
      (buffer : List A) (h n : ℕ)
      → h < capacity
      → slots buffer h (suc n) ≡ get_or buffer h blank ∷ slots buffer ((h + 1) % capacity) n
  slots_front buffer h zero p = rw (add-zero, mod-eq_of_lt p)
  slots_front buffer h (suc n) p = rw (slots_front buffer h n p, shift)
    where
      shift : (h + suc n) % capacity ≡ ((h + 1) % capacity + n) % capacity
      shift = rw mod-add-mod (ap (λ k. k % capacity) (omega arith))

  -- Indices less than `capacity` apart are different slots.
  slot-ne :
      (h n k : ℕ) → h < capacity → n < k → k < capacity → (h + k) % capacity ≢ (h + n) % capacity
  slot-ne h n k hh hn hk =
      ground (arith, wrap capacity (h + n) (omega arith), wrap capacity (h + k) (omega arith))

  -- A write past the window leaves it alone.
  slots-set :
      (buffer : List A) (h n k : ℕ) (x : A)
      → h < capacity
      → n ≤ k
      → k < capacity
      → slots (set buffer ((h + k) % capacity) x) h n ≡ slots buffer h n
  slots-set buffer h zero k x hh hn hk = refl
  slots-set buffer h (suc n) k x hh hn hk = rw (
    slots-set buffer h n k x hh (omega arith) hk,
    get_or-set_ne buffer ((h + k) % capacity) ((h + n) % capacity) x blank (slot-ne h n k hh hn hk),
  )

  pub length-contents : (q : LockFreeQueue A) → length (contents q) ≡ size capacity blank q
  length-contents q = length-slots q.buffer q.head (size capacity blank q)

  -- How the indices, the size and the two tests of the code hang together.
  pub size_facts :
      (q : LockFreeQueue A)
      → IsValid capacity q
      → (size capacity blank q < capacity) × (q.tail ≡ (q.head + size capacity blank q) % capacity)
  unfolding size
  size_facts q v = ground (
    arith,
    wrap capacity (q.head + (capacity - q.head + q.tail)) (ground arith),
    wrap capacity (q.head + (q.tail - q.head)),
  )

  -- The full test of the code is that of a FIFO with one slot to spare.
  full_iff :
      (q : LockFreeQueue A)
      → IsValid capacity q
      → ((q.tail + 1) % capacity ≡ q.head) ↔ (suc (size capacity blank q) ≡ capacity)
  unfolding size
  full_iff q v = (
    ground (arith, wrap capacity (q.tail + 1) (ground arith)),
    ground (arith, wrap capacity (q.tail + 1) (ground arith)),
  )

  -- The queue after a successful exchange and the write that follows it.
  abbrev written : LockFreeQueue A → A → LockFreeQueue A
  written q x = record q { tail = (q.tail + 1) % capacity; buffer = set q.buffer q.tail x }

  size-pushed :
      (q : LockFreeQueue A) (x : A)
      → IsValid capacity q
      → (q.tail + 1) % capacity ≢ q.head
      → size capacity blank (written q x) ≡ suc (size capacity blank q)
  unfolding size
  size-pushed q x v ne = ground (arith, wrap capacity (q.tail + 1) (ground arith))

  abbrev popped_queue : LockFreeQueue A → LockFreeQueue A
  popped_queue q = record q { head = (q.head + 1) % capacity }

  size-popped :
      (q : LockFreeQueue A)
      → IsValid capacity q
      → q.head ≢ q.tail
      → suc (size capacity blank (popped_queue q)) ≡ size capacity blank q
  unfolding size
  size-popped q v ne = ground (arith, wrap capacity (q.head + 1) (ground arith))

  size-empty :
      (q : LockFreeQueue A) → IsValid capacity q → (q.head ≡ q.tail) ↔ (size capacity blank q ≡ 0)
  unfolding size
  size-empty q v = (ground arith, ground arith)

  contents-written :
      (q : LockFreeQueue A) (x : A)
      → IsValid capacity q
      → (q.tail + 1) % capacity ≢ q.head
      → contents (written q x) ≡ contents q ++ x ∷ []
  contents-written q x v ne =
      let n = size capacity blank q in
      let facts = size_facts q v in
      rw (size-pushed q x v ne, ← facts.1, get_or-set_self q.buffer q.tail x blank (ground arith))
        (ap (λ b. b ++ x ∷ [])
          (ap (λ t. slots (set q.buffer t x) q.head n) facts.1
            ∙ slots-set q.buffer q.head n n x v.head_in (omega arith) facts.0))

  attempts_full :
      (spurious : ℕ → Bool) (left : ℕ) (q : LockFreeQueue A) (x : A)
      → (q.tail + 1) % capacity ≡ q.head
      → push_attempts capacity blank spurious left q.tail q x ≡ (false, q)
  unfolding push_attempts
  attempts_full spurious zero q x e = refl
  attempts_full spurious (suc left) q x e = ground arith

  attempts_land :
      (spurious : ℕ → Bool) (left i : ℕ) (q : LockFreeQueue A) (x : A)
      → i < left
      → spurious i ≡ false
      → (q.tail + 1) % capacity ≢ q.head
      → push_attempts capacity blank spurious left q.tail q x ≡ (true, written q x)
  unfolding push_attempts
  attempts_land spurious zero i q x h e ne = absurd (omega arith)
  attempts_land spurious (suc left) i q x h e ne = elim (dec_lt i left) [
    | yes below ↦ ground (arith, attempts_land spurious left i q x below e ne)
    | no top ↦ let same : i ≡ left = omega arith in ground (arith, ap spurious same)
  ]

  -- The calls of one client, with what each returns.
  pub run : (ℕ → Bool) → LockFreeQueue A → List (Op A) → List (Reply A)
  run spurious q [] = []
  run spurious q (push x ∷ ops) =
      let (done, q') = try_push capacity blank spurious q x in pushed done ∷ run spurious q' ops
  run spurious q (pop ∷ ops) =
      let (out, q') = try_pop capacity blank q in popped out ∷ run spurious q' ops

  -- On a valid queue, a push whose exchange is free to go through at one of the hundred attempts
  -- answers as the FIFO does, and leaves the events of the FIFO in the queue.
  pub try_push_refines :
      (spurious : ℕ → Bool) (i : ℕ) (q : LockFreeQueue A) (x : A)
      → IsValid capacity q
      → i < 100
      → spurious i ≡ false
      → let (done, q') = try_push capacity blank spurious q x in
        (done, contents q') ≡ Fifo.enqueue capacity (contents q) x
  unfolding try_push Fifo.enqueue
  try_push_refines spurious i q x v h e =
      let len = length-slots q.buffer q.head (size capacity blank q) in
      elim (ℕ_discrete ((q.tail + 1) % capacity) q.head) [
        | yes full ↦
            rw (attempts_full spurious 100 q x full, len, eq→== _ capacity ((full_iff q v).0 full))
        | no room ↦
            rw
              (
                attempts_land spurious 100 i q x h e room,
                len,
                ne→== (suc (size capacity blank q)) capacity (λ full. room ((full_iff q v).1 full)),
              )
              (ap (λ l. (true, l)) (contents-written q x v room))
      ]

  -- A pop answers as the FIFO does, and leaves the rest of the FIFO in the queue.
  pub try_pop_refines :
      (q : LockFreeQueue A)
      → IsValid capacity q
      → let (out, q') = try_pop capacity blank q in (out, contents q') ≡ Fifo.dequeue (contents q)
  unfolding try_pop Fifo.dequeue
  try_pop_refines q v = elim (ℕ_discrete q.head q.tail) [
    | yes same ↦ rw (eq→== q.head q.tail same, (size-empty q v).0 same)
    | no more ↦ rw (
      ne→== q.head q.tail more,
      ← size-popped q v more,
      slots_front q.buffer q.head (size capacity blank (popped_queue q)) v.head_in,
    )
  ]

  -- Any sequence of pushes and pops on a valid queue gets the answers of the FIFO of its contents,
  -- where at one of the hundred attempts of a push the exchange is free to go through.
  pub run_refines :
      (spurious : ℕ → Bool) (i : ℕ) (ops : List (Op A)) (q : LockFreeQueue A)
      → IsValid capacity q
      → i < 100
      → spurious i ≡ false
      → run spurious q ops ≡ Fifo.serve capacity (contents q) ops
  unfolding run Fifo.serve
  run_refines spurious i [] q v h e = refl
  run_refines spurious i (push x ∷ ops) q v h e = rw (
    run_refines spurious i ops (try_push capacity blank spurious q x).1
        (try_push-IsValid capacity blank spurious q x v) h e,
    ← try_push_refines spurious i q x v h e,
  )
  run_refines spurious i (pop ∷ ops) q v h e = rw (
    run_refines spurious i ops (try_pop capacity blank q).1 (try_pop-IsValid capacity blank q v) h
        e,
    ← try_pop_refines q v,
  )
