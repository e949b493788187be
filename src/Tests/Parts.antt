-- ===== src/Tests/Parts.antt =====
-- The theorems on the parts of the tracer, at concrete values.
use rmw_robotops.Base.{
  Bool, length-replicate, if-intro, ℕ, ◌≡◌, ◌⊎◌, refl, true, false, none, some, List, [], ◌∷◌,
  arith, if◌then◌else◌, ◌==◌,
}
use rmw_robotops.Topic.{bytes}
use rmw_robotops.Tests.{some_context}
use rmw_robotops.Queue.{LockFreeQueue, empty_queue, try_pop}
use rmw_robotops.Queue.Fifo as Fifo
use rmw_robotops.Queue.Fifo.{Op}
use rmw_robotops.Queue.Valid.{IsValid, empty_queue-IsValid}
use rmw_robotops.Queue.Refine.{run, contents, run_refines}
use rmw_robotops.Queue.Race as Race
use rmw_robotops.Queue.Race.{
  Machine, Producer, idle, exchanging, Holds, Step, Reach, here, next, start, IsSafe, Reach-IsSafe,
  claim-pop-stale, after_claim, write_slot, at,
}
use rmw_robotops.Context.{
  empty_context, new_thread, is_empty, get_or_mint_trace_context, collect_pending_contexts,
}
use rmw_robotops.Context.Mint.{get_or_mint_trace_context_lem, IsRoot}
use rmw_robotops.Context.Pending.{collect-save_all, save_all, waiting, IsBounded}
use rmw_robotops.Number.{get_env_uint32}
use rmw_robotops.Number.Parse.{decimal, parse_minus}
use rmw_robotops.State.{Health, is_tracing_enabled, record_trace_success}
use rmw_robotops.State.Switch.{
  check, fail, succeed, apply_calls, failures, disabled_forever, failures_check, traced_calls,
  auto_disabled_never,
}

-- A queue of four slots with nothing in it.
abbrev four : LockFreeQueue ℕ
four = empty_queue 4 0

abbrev never : ℕ → Bool
never i = false

four-IsValid : IsValid 4 four
four-IsValid = empty_queue-IsValid 4 0 (omega arith)

abbrev ops : List (Op ℕ)
ops = Fifo.push 8 ∷ Fifo.push 9 ∷ Fifo.pop ∷ []

run_refines_example : run 4 0 never four ops ≡ Fifo.serve 4 (contents 4 0 four) ops
run_refines_example = run_refines 4 0 never 0 ops four four-IsValid (omega arith) refl

-- Producer 0 is about to exchange; the queue of two slots is empty.
abbrev racing : Machine ℕ
racing = record {
  queue = record { buffer = 5 ∷ 6 ∷ []; head = 0; tail = 0 };
  producer = λ i. if i == 0 then exchanging 9 0 99 else idle;
}

racing-IsSafe : IsSafe 2 0 racing
racing-IsSafe = record {
  queue = record { slots = refl; head_in = omega arith; tail_in = omega arith };
  producers =
      λ i. if-intro (Holds 2 0) (i == 0) (exchanging 9 0 99) idle (λ _. omega arith) (λ _. tt);
}

Reach-IsSafe_example : IsSafe 2 0 (record racing { queue = (try_pop 2 0 racing.queue).1 })
Reach-IsSafe_example = Reach-IsSafe 2 0 racing-IsSafe (next here Race.pop)

claim-pop-stale_example :
    let (out, q) = try_pop 2 0 (after_claim 2 0 racing 0 9 0).queue in
    Step 2 0 racing (after_claim 2 0 racing 0 9 0)
    × (out ≡ some 5)
    × (try_pop 2 0 (write_slot 2 0 q 0 9) ≡ (none, write_slot 2 0 q 0 9))
claim-pop-stale_example =
    claim-pop-stale 2 0 racing 0 9 0 99 (omega arith) racing-IsSafe refl refl refl

get_or_mint_trace_context_lem_example :
    let (c, t') = get_or_mint_trace_context 17 5 new_thread in
    (t'.context ≡ c)
    × (is_empty c ≡ false)
    × (t'.pending ≡ new_thread.pending)
    × (((is_empty new_thread.context ≡ false) × (t' ≡ new_thread))
        ⊎ ((is_empty new_thread.context ≡ true) × IsRoot c))
get_or_mint_trace_context_lem_example = get_or_mint_trace_context_lem 17 5 new_thread

new_thread-IsBounded : IsBounded new_thread.pending
new_thread-IsBounded = record { slots = length-replicate 16 empty_context; within = omega arith }

collect-save_all_example :
    let (out, t') =
      collect_pending_contexts false 1 (save_all (some_context ∷ empty_context ∷ []) new_thread) in
    (out ≡ some_context ∷ []) × IsBounded t'.pending × (waiting t'.pending ≡ [])
collect-save_all_example =
    collect-save_all (some_context ∷ empty_context ∷ []) 1 new_thread new_thread-IsBounded

parse_minus_example : get_env_uint32 (some (bytes "-18446744073709551615")) 10 ≡ 1
unfolding decimal
parse_minus_example =
    parse_minus 49 (bytes "8446744073709551615") 10 1 (ground arith) (omega arith) (omega arith)
      refl

-- A tracer that is on, with threshold 10.
abbrev healthy : Health
healthy = record {
  state = record { enabled = true; consecutive_failures = 3; failure_threshold = 10 };
  metrics = record { traces_emitted = 0; traces_dropped = 0; auto_disabled = false };
}

abbrev switched_off : Health
switched_off = record healthy {
  state = record { enabled = false; consecutive_failures = 3; failure_threshold = 10 };
}

disabled_forever_example :
    let s = (apply_calls (succeed ∷ check ∷ fail ∷ []) switched_off).state in
    is_tracing_enabled s ≡ (false, s)
disabled_forever_example = disabled_forever (succeed ∷ check ∷ fail ∷ []) switched_off refl

failures_check_example :
    (is_tracing_enabled (failures 10 (record_trace_success healthy)).state).0 ≡ false
failures_check_example = failures_check 10 healthy (omega arith)

auto_disabled_never_example :
    (traced_calls (false ∷ true ∷ false ∷ []) healthy).metrics.auto_disabled ≡ false
auto_disabled_never_example = auto_disabled_never (false ∷ true ∷ false ∷ []) healthy
