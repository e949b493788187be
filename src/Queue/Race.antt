-- ===== src/Queue/Race.antt =====
-- The queue under interleaving: producers on `try_push`, one consumer on `try_pop`, each step one
-- access of `head_` or `tail_` with the local work around it. The exchange claims a slot, and the
-- event is written in a later step.
use mathlib.Core.Path.{subst}
use rmw_robotops.Base.{
  ℕ, suc, ◌+◌, ◌%◌, ◌≤◌, ◌<◌, ◌≡◌, ◌≢◌, ◌==◌, if◌then◌else◌, some, none, arith, Bool-cases, inl,
  inr, ◌∙◌, length-set, set, get_or,
}
use rmw_robotops.Queue.{LockFreeQueue, try_pop}
use rmw_robotops.Queue.Refine.{wrap}
use rmw_robotops.Queue.Valid.{IsValid, try_pop-IsValid}

-- Where a producer stands in `try_push`: its event, the tail that it read, the attempts it has left.
pub data Producer {ℓ} (A : Type ℓ) : Type ℓ where
  idle : Producer A
  trying : A → ℕ → ℕ → Producer A
  exchanging : A → ℕ → ℕ → Producer A
  claimed : A → ℕ → Producer A

pub record Machine {ℓ} (A : Type ℓ) : Type ℓ where
  pub queue : LockFreeQueue A
  pub producer : ℕ → Producer A

abbrev pub update {ℓ} : {A : Type ℓ} → (ℕ → A) → ℕ → A → ℕ → A
update f i a j = if j == i then a else f j

module _ {ℓ} {A : Type ℓ} (capacity : ℕ) (blank : A) where
  abbrev pub at : Machine A → ℕ → Producer A → Machine A
  at m i p = record m { producer = update m.producer i p }

  -- `(current_tail + 1) % Capacity`.
  abbrev pub next_index : ℕ → ℕ
  next_index t = (t + 1) % capacity

  pub data Step (m : Machine A) : Machine A → Type ℓ where
    -- The first load of the tail.
    start : (i : ℕ) (x : A) → m.producer i ≡ idle → Step m (at m i (trying x m.queue.tail 100))
    -- The load of the head finds the queue full, or goes on to the exchange.
    full :
        (i : ℕ) (x : A) (t left : ℕ)
        → m.producer i ≡ trying x t (suc left)
        → next_index t ≡ m.queue.head
        → Step m (at m i idle)
    room :
        (i : ℕ) (x : A) (t left : ℕ)
        → m.producer i ≡ trying x t (suc left)
        → next_index t ≢ m.queue.head
        → Step m (at m i (exchanging x t left))
    -- The exchange claims the slot, or fails (also for no reason) and reloads the tail.
    claim :
        (i : ℕ) (x : A) (t left : ℕ)
        → m.producer i ≡ exchanging x t left
        → m.queue.tail ≡ t
        → Step m (record m {
          queue = record (m.queue) { tail = next_index t };
          producer = update m.producer i (claimed x t);
        })
    miss :
        (i : ℕ) (x : A) (t left : ℕ)
        → m.producer i ≡ exchanging x t left
        → Step m (at m i (trying x m.queue.tail left))
    give_up : (i : ℕ) (x : A) (t : ℕ) → m.producer i ≡ trying x t 0 → Step m (at m i idle)
    -- The write of the event into the claimed slot.
    write :
        (i : ℕ) (x : A) (t : ℕ)
        → m.producer i ≡ claimed x t
        → Step m (record m {
          queue = record (m.queue) { buffer = set m.queue.buffer t x };
          producer = update m.producer i idle;
        })
    -- The only consumer; producers do not write the head, so its loads and its store are one step.
    pop : Step m (record m { queue = (try_pop capacity blank m.queue).1 })

  pub data Reach (m : Machine A) : Machine A → Type ℓ where
    here : Reach m m
    next : {k n : Machine A} → Reach m k → Step k n → Reach m n

  -- The slot that a producer is going to write.
  abbrev pub Holds : Producer A → Type 0
  Holds idle = Unit
  Holds (trying x t left) = t < capacity
  Holds (exchanging x t left) = t < capacity
  Holds (claimed x t) = t < capacity

  -- Indices and claims inside the buffer.
  pub record IsSafe (m : Machine A) : Type 0 where
    pub queue : IsValid capacity m.queue
    pub producers : (i : ℕ) → Holds (m.producer i)

  update-Holds :
      (f : ℕ → Producer A) (i : ℕ) (p : Producer A)
      → ((j : ℕ) → Holds (f j))
      → Holds p
      → (j : ℕ) → Holds (update f i p j)
  update-Holds f i p all h j = elim (Bool-cases (j == i)) [
    | inl same ↦ rw same h
    | inr other ↦ rw other (all j)
  ]

  held : (m : Machine A) (i : ℕ) (p : Producer A) → IsSafe m → m.producer i ≡ p → Holds p
  held m i p safe e = subst Holds e (safe.producers i)

  at-IsSafe : (m : Machine A) (i : ℕ) (p : Producer A) → IsSafe m → Holds p → IsSafe (at m i p)
  at-IsSafe m i p safe h = record {
    queue = safe.queue;
    producers = update-Holds m.producer i p safe.producers h;
  }

  index-lt : (m : Machine A) (t : ℕ) → IsSafe m → next_index t < capacity
  index-lt m t safe = let v = safe.queue in omega arith

  pub Step-IsSafe : {m n : Machine A} → Step m n → IsSafe m → IsSafe n
  Step-IsSafe {m} (start i x e) safe = at-IsSafe m i _ safe safe.queue.tail_in
  Step-IsSafe {m} (full i x t left e f) safe = at-IsSafe m i idle safe tt
  Step-IsSafe {m} (room i x t left e f) safe =
      at-IsSafe m i _ safe (held m i (trying x t (suc left)) safe e)
  Step-IsSafe {m} (claim i x t left e f) safe =
      let h = held m i (exchanging x t left) safe e in
      record {
        queue = record {
          slots = safe.queue.slots;
          head_in = safe.queue.head_in;
          tail_in = index-lt m t safe;
        };
        producers = update-Holds m.producer i (claimed x t) safe.producers h;
      }
  Step-IsSafe {m} (miss i x t left e) safe = at-IsSafe m i _ safe safe.queue.tail_in
  Step-IsSafe {m} (give_up i x t e) safe = at-IsSafe m i idle safe tt
  Step-IsSafe {m} (write i x t e) safe = record {
    queue = record {
      slots = length-set m.queue.buffer t x ∙ safe.queue.slots;
      head_in = safe.queue.head_in;
      tail_in = safe.queue.tail_in;
    };
    producers = update-Holds m.producer i idle safe.producers tt;
  }
  Step-IsSafe {m} pop safe = record {
    queue = try_pop-IsValid capacity blank m.queue safe.queue;
    producers = safe.producers;
  }

  -- From a safe machine, under every interleaving of any number of producers with the consumer, both
  -- indices and every slot that a producer has read or claimed stay inside the buffer, which keeps
  -- its size.
  pub Reach-IsSafe : {m n : Machine A} → IsSafe m → Reach m n → IsSafe n
  Reach-IsSafe safe here = safe
  Reach-IsSafe safe (next r st) = Step-IsSafe st (Reach-IsSafe safe r)

  next_index-ne : (t : ℕ) → 2 ≤ capacity → t < capacity → next_index t ≢ t
  next_index-ne t h p = ground (arith, wrap capacity (t + 1) (omega arith))

  -- The machine after the exchange of producer `i`, and after its write.
  abbrev pub after_claim : Machine A → ℕ → A → ℕ → Machine A
  after_claim m i x t = record m {
    queue = record (m.queue) { tail = next_index t };
    producer = update m.producer i (claimed x t);
  }

  abbrev pub write_slot : LockFreeQueue A → ℕ → A → LockFreeQueue A
  write_slot q t x = record q { buffer = set q.buffer t x }

  -- In a safe machine whose queue is empty and has two slots or more, with a producer about to
  -- exchange at the tail: the exchange is a step, a pop that comes next returns what the slot held
  -- before, and once the event is written the queue is empty, so that the next pop finds nothing.
  pub claim-pop-stale :
      (m : Machine A) (i : ℕ) (x : A) (t left : ℕ)
      → 2 ≤ capacity
      → IsSafe m
      → m.producer i ≡ exchanging x t left
      → m.queue.tail ≡ t
      → m.queue.head ≡ t
      → let (out, q) = try_pop capacity blank (after_claim m i x t).queue in
        Step m (after_claim m i x t)
        × (out ≡ some (get_or m.queue.buffer t blank))
        × (try_pop capacity blank (write_slot q t x) ≡ (none, write_slot q t x))
  unfolding try_pop
  claim-pop-stale m i x t left h safe e tail head =
      let moved : next_index t ≢ t =
        next_index-ne t h (subst (λ k. k < capacity) tail safe.queue.tail_in) in
      (claim i x t left e tail, ground arith, ground arith)
