-- ===== src/Context.antt =====
-- include/rmw_robotops/trace_context.hpp and src/trace_context.cpp: the trace context of a thread
-- and the contexts that wait to become span links. A `Thread` holds the thread-local variables.
pub mod Mint
pub mod Pending
use rmw_robotops.Base.{
  ℕ, ◌+◌, Bool, true, false, ◌||◌, List, [], ◌∷◌, ◌==◌, leb, ltb, if◌then◌else◌, set, take,
  replicate,
}
use rmw_robotops.Text.{Text}
use rmw_robotops.SpanId.{XorShift128State, fresh_state, generate_trace_id, generate_span_id}

abbrev pub trace_id_length : ℕ
trace_id_length = 32

abbrev pub span_id_length : ℕ
span_id_length = 16

abbrev pub max_pending_contexts : ℕ
max_pending_contexts = 16

pub record TraceContext : Type 0 where
  pub trace_id : Text
  pub span_id : Text
  pub parent_span_id : Text

-- `text[0] == '\0'`.
unfoldable pub starts_nul : Text → Bool
starts_nul [] = true
starts_nul (c ∷ cs) = false

unfoldable pub is_empty : TraceContext → Bool
unfolding starts_nul
is_empty context = starts_nul context.trace_id

abbrev pub empty_context : TraceContext
empty_context = record { trace_id = []; span_id = []; parent_span_id = [] }

-- `contexts` has `MAX_PENDING_CONTEXTS` slots.
pub record PendingContexts : Type 0 where
  pub contexts : List TraceContext
  pub count : ℕ

unfoldable pub add : PendingContexts → TraceContext → Bool × PendingContexts
add p context =
    if leb max_pending_contexts p.count
    then (false, p)
    else (true, record { contexts = set p.contexts p.count context; count = p.count + 1 })

unfoldable pub clear : PendingContexts → PendingContexts
clear p = record p { count = 0 }

-- `tls_rng_state`, `tls_trace_context` and `tls_pending_contexts`.
pub record Thread : Type 0 where
  pub rng : XorShift128State
  pub context : TraceContext
  pub pending : PendingContexts

-- A thread that has run nothing yet.
abbrev pub new_thread : Thread
new_thread = record {
  rng = fresh_state;
  context = empty_context;
  pending = record { contexts = replicate 16 empty_context; count = 0 };
}

unfoldable pub get_trace_context : Thread → TraceContext
get_trace_context t = t.context

unfoldable pub set_trace_context : TraceContext → Thread → Thread
set_trace_context context t = record t { context = context }

-- `nanos` and `thread_id` are the readings that seed the generator, if it is not seeded yet.
unfoldable pub get_or_mint_trace_context : ℕ → ℕ → Thread → TraceContext × Thread
unfolding is_empty
get_or_mint_trace_context nanos thread_id t =
    if is_empty t.context
    then (let (trace, r) = generate_trace_id nanos thread_id t.rng in
        let (span, r') = generate_span_id nanos thread_id r in
        let minted : TraceContext = record {
          trace_id = trace;
          span_id = span;
          parent_span_id = [];
        } in
        (minted, record t { rng = r'; context = minted }))
    else (t.context, t)

unfoldable pub save_pending_context : TraceContext → Thread → Bool × Thread
unfolding add
save_pending_context context t =
    let (saved, p) = add t.pending context in (saved, record t { pending = p })

-- The list is what is copied to `out_contexts`, and its length the result.
unfoldable pub collect_pending_contexts : Bool → ℕ → Thread → List TraceContext × Thread
unfolding clear
collect_pending_contexts out_is_null max_contexts t =
    if out_is_null || (max_contexts == 0)
    then ([], t)
    else (let count = if ltb max_contexts t.pending.count then max_contexts else t.pending.count in
        (take count t.pending.contexts, record t { pending = clear t.pending }))

unfoldable pub clear_pending_contexts : Thread → Thread
unfolding clear
clear_pending_contexts t = record t { pending = clear t.pending }
