-- ===== src/Tests/Threads.antt =====
-- The theorem on the background threads, for a queue of four slots with the events 8 and 9.
use rmw_robotops.Base.{ℕ, ◌+◌, ◌*◌, ◌≡◌, refl, Option, some, [], ◌∷◌, arith}
use rmw_robotops.Queue.{LockFreeQueue}
use rmw_robotops.Queue.Valid.{IsValid}
use rmw_robotops.Queue.Refine.{contents}
use rmw_robotops.Exporter.{publisher_thread_func}
use rmw_robotops.Exporter.Drain.{export_all, publisher_thread_func_lem}

abbrev pair : LockFreeQueue ℕ
pair = record { buffer = 7 ∷ 8 ∷ 9 ∷ 0 ∷ []; head = 1; tail = 3 }

pair-IsValid : IsValid 4 pair
pair-IsValid = record { slots = refl; head_in = omega arith; tail_in = omega arith }

abbrev convert : ℕ → Option ℕ
convert event = some event

abbrev publish : Option (ℕ → ℕ → ℕ)
publish = some (λ msg sent. sent * 10 + msg)

publisher_thread_func_lem_example :
    let (q', u') = publisher_thread_func 4 0 convert publish 1 pair 0 in
    (contents 4 0 q' ≡ []) × (u' ≡ export_all 4 0 convert publish (contents 4 0 pair) 0)
publisher_thread_func_lem_example =
    publisher_thread_func_lem 4 0 convert publish 1 pair 0 pair-IsValid
