-- ===== src/Exporter/Frame.antt =====
-- What an exporter does not touch outside: whatever a publication keeps.
use rmw_robotops.Base.{ℕ, zero, suc, ◌≡◌, refl, ◌∙◌, Option, none, some}
use rmw_robotops.Queue.{LockFreeQueue, try_pop}
use rmw_robotops.Exporter.{when_some, export_event, poll, poll_while, drain, publisher_thread_func}

-- The publication, if there is one, keeps the observation.
unfoldable pub Keeps : {M U B : Type 0} → (U → B) → Option (M → U → U) → Type 0
Keeps obs none = Unit
Keeps {M} {U} obs (some send) = (m : M) (u : U) → obs (send m u) ≡ obs u

module _ {A M U B : Type 0} (capacity : ℕ) (blank : A) (convert : A → Option M)
    (publish : Option (M → U → U)) (obs : U → B) (keeps : Keeps obs publish) where
  send-Keeps :
      (p : Option (M → U → U)) (m : M) (u : U)
      → Keeps obs p
      → obs (when_some p u (λ send. send m u)) ≡ obs u
  unfolding when_some Keeps
  send-Keeps none m u h = refl
  send-Keeps (some send) m u h = h m u

  export-Keeps :
      (o : Option M) (u : U)
      → obs (when_some o u (λ msg. when_some publish u (λ send. send msg u))) ≡ obs u
  unfolding when_some
  export-Keeps none u = refl
  export-Keeps (some m) u = send-Keeps publish m u keeps

  export_event-Keeps :
      (x : A) (u : U) → obs (export_event capacity blank convert publish x u) ≡ obs u
  unfolding export_event
  export_event-Keeps x u = export-Keeps (convert x) u

  pop-Keeps :
      (o : Option A) (q : LockFreeQueue A) (u : U)
      (next : LockFreeQueue A → U → LockFreeQueue A × U)
      → ((v : U) → obs (next q v).1 ≡ obs v)
      → obs
          (when_some o
            (q, u)
            (λ event. next q (export_event capacity blank convert publish event u))).1
        ≡ obs u
  unfolding when_some
  pop-Keeps none q u next h = refl
  pop-Keeps (some x) q u next h = h _ ∙ export_event-Keeps x u

  poll_while-keeps :
      (rounds : ℕ) (q : LockFreeQueue A) (u : U)
      → obs (poll_while capacity blank convert publish rounds q u).1 ≡ obs u
  unfolding poll_while poll
  poll_while-keeps zero q u = refl
  poll_while-keeps (suc rounds) q u =
      let (out, q') = try_pop capacity blank q in
      poll_while-keeps rounds _ _ ∙ pop-Keeps out q' u (λ p v. (p, v)) (λ v. refl)

  drain-keeps :
      (fuel : ℕ) (q : LockFreeQueue A) (u : U)
      → obs (drain capacity blank convert publish fuel q u).1 ≡ obs u
  unfolding drain
  drain-keeps zero q u = refl
  drain-keeps (suc fuel) q u =
      let (out, q') = try_pop capacity blank q in
      pop-Keeps out q' u (drain capacity blank convert publish fuel) (λ v. drain-keeps fuel q' v)

  pub publisher_thread_func-keeps :
      (rounds : ℕ) (q : LockFreeQueue A) (u : U)
      → obs (publisher_thread_func capacity blank convert publish rounds q u).1 ≡ obs u
  unfolding publisher_thread_func
  publisher_thread_func-keeps rounds q u = drain-keeps capacity _ _ ∙ poll_while-keeps rounds q u
