-- ===== src/Exporter/Drain.antt =====
-- What a thread publishes, and what it leaves in its queue.
use rmw_robotops.Base.{
  ℕ, zero, suc, ◌≤◌, ◌≡◌, refl, ap, ◌∙◌, Option, none, some, List, [], ◌∷◌, length, arith,
}
use rmw_robotops.Queue.{LockFreeQueue, try_pop}
use rmw_robotops.Queue.Fifo.{dequeue}
use rmw_robotops.Queue.Valid.{IsValid, try_pop-IsValid}
use rmw_robotops.Queue.Refine.{contents, length-contents, size_facts, try_pop_refines}
use rmw_robotops.Exporter.{when_some, export_event, poll, poll_while, drain, publisher_thread_func}

module _ {A M U : Type 0} (capacity : ℕ) (blank : A) (convert : A → Option M)
    (publish : Option (M → U → U)) where
  -- Every event is exported once, in this order.
  pub export_all : List A → U → U
  export_all [] u = u
  export_all (x ∷ xs) u = export_all xs (export_event capacity blank convert publish x u)

  popped_as :
      (q : LockFreeQueue A) (xs : List A)
      → IsValid capacity q
      → contents capacity blank q ≡ xs
      → let (out, q') = try_pop capacity blank q in
        ◌≡◌ {A = Option A × List A} (out, contents capacity blank q') (dequeue xs)
  popped_as q xs v e = try_pop_refines capacity blank q v ∙ ap dequeue e

  drain_lem :
      (fuel : ℕ) (q : LockFreeQueue A) (u : U) (xs : List A)
      → IsValid capacity q
      → contents capacity blank q ≡ xs
      → length xs ≤ fuel
      → let (q', u') = drain capacity blank convert publish fuel q u in
        (contents capacity blank q' ≡ []) × (u' ≡ export_all xs u)
  unfolding drain when_some dequeue export_all
  drain_lem zero q u [] v e enough = (e, refl)
  drain_lem zero q u (x ∷ xs) v e enough = absurd (omega arith)
  drain_lem (suc fuel) q u [] v e enough =
      let pair = popped_as q [] v e in
      let nothing : (try_pop capacity blank q).0 ≡ none = ap (λ p. p.0) pair in
      rw nothing (ap (λ p. p.1) pair, refl)
  drain_lem (suc fuel) q u (x ∷ xs) v e enough =
      let pair = popped_as q (x ∷ xs) v e in
      let first : (try_pop capacity blank q).0 ≡ some x = ap (λ p. p.0) pair in
      rw first (
        drain_lem fuel _ _ xs (try_pop-IsValid capacity blank q v) (ap (λ p. p.1) pair)
          (omega arith))

  poll_lem :
      (q : LockFreeQueue A) (u : U) (xs : List A)
      → IsValid capacity q
      → contents capacity blank q ≡ xs
      → let (q', u') = poll capacity blank convert publish q u in
        IsValid capacity q' × (export_all (contents capacity blank q') u' ≡ export_all xs u)
  unfolding poll when_some dequeue export_all
  poll_lem q u [] v e =
      let pair = popped_as q [] v e in
      let nothing : (try_pop capacity blank q).0 ≡ none = ap (λ p. p.0) pair in
      rw nothing (try_pop-IsValid capacity blank q v, ap (λ p. export_all p.1 u) pair)
  poll_lem q u (x ∷ xs) v e =
      let pair = popped_as q (x ∷ xs) v e in
      let first : (try_pop capacity blank q).0 ≡ some x = ap (λ p. p.0) pair in
      rw first (
        try_pop-IsValid capacity blank q v,
        ap (λ p. export_all p.1 (export_event capacity blank convert publish x u)) pair,
      )

  poll_while_lem :
      (rounds : ℕ) (q : LockFreeQueue A) (u : U)
      → IsValid capacity q
      → let (q', u') = poll_while capacity blank convert publish rounds q u in
        IsValid capacity q'
        × (export_all (contents capacity blank q') u' ≡ export_all (contents capacity blank q) u)
  unfolding poll_while
  poll_while_lem zero q u v = (v, refl)
  poll_while_lem (suc rounds) q u v =
      let one = poll_lem q u (contents capacity blank q) v refl in
      let rest = poll_while_lem rounds _ _ one.0 in (rest.0, rest.1 ∙ one.1)

  -- From a valid queue, with no producer about, a thread exports each event of the queue once, oldest
  -- first, and leaves the queue empty, however many rounds it makes before it is told to stop.
  pub publisher_thread_func_lem :
      (rounds : ℕ) (q : LockFreeQueue A) (u : U)
      → IsValid capacity q
      → let (q', u') = publisher_thread_func capacity blank convert publish rounds q u in
        (contents capacity blank q' ≡ []) × (u' ≡ export_all (contents capacity blank q) u)
  unfolding publisher_thread_func
  publisher_thread_func_lem rounds q u v =
      let polled = poll_while_lem rounds q u v in
      let left = (poll_while capacity blank convert publish rounds q u).0 in
      let few = (size_facts capacity blank left polled.0).0 in
      let len = length-contents capacity blank left in
      let done =
        drain_lem capacity left _ (contents capacity blank left) polled.0 refl (omega arith) in
      (done.0, done.1 ∙ polled.1)
