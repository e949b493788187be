-- ===== src/World.antt =====
-- The state that the intercepted calls share, what they read from outside, and the calls of the
-- underlying middleware. One call runs at a time; the thread-local part is that of its thread.
pub mod Frame
pub mod Forward
pub mod Sound
use rmw_robotops.Base.{ℕ, Bool, Option, List}
use rmw_robotops.Text.{Text}
use rmw_robotops.Queue.{LockFreeQueue, try_push}
use rmw_robotops.Context.{Thread}
use rmw_robotops.State.{
  Health, is_tracing_enabled, record_trace_failure, record_trace_success, increment_traces_emitted,
  increment_traces_dropped,
}
use rmw_robotops.SpanId.{generate_span_id, generate_trace_id}
use rmw_robotops.Topic.{EventTypes}
use rmw_robotops.Hash.{Memory, Nested}
use rmw_robotops.Events.{TraceEvent, blank_event, TraceContextChangeEvent, blank_change}

-- What the source caches for a publisher or a subscription, and for a client or a service.
pub record TopicMetadata : Type 0 where
  pub node_name : Text
  pub node_namespace : Text
  pub message_type : Text
  pub members : Nested

pub record ServiceMetadata : Type 0 where
  pub node_name : Text
  pub node_namespace : Text
  pub service_name : Text
  pub request_members : Nested
  pub response_members : Nested

-- `PendingRequest` of src/rmw_client.cpp.
pub record PendingRequest : Type 0 where
  pub trace_id : Text
  pub span_id : Text
  pub timestamp_ns : ℕ

-- `outside` is the state of the underlying middleware and of the memory of the process.
pub record World (U : Type 0) : Type 0 where
  pub outside : U
  pub thread : Thread
  pub health : Health
  pub events : LockFreeQueue TraceEvent
  pub changes : LockFreeQueue TraceContextChangeEvent
  pub publishers : List (ℕ × TopicMetadata)
  pub subscriptions : List (ℕ × TopicMetadata)
  pub clients : List (ℕ × ServiceMetadata)
  pub services : List (ℕ × ServiceMetadata)
  pub pending_requests : List (ℕ × PendingRequest)

-- What one call reads: the wall clock, the two seeds, the hash of the thread id, the domain variable,
-- the bytes that an uninitialised buffer holds, and on which attempts an exchange fails for no reason.
pub record Readings : Type 0 where
  pub now_ns : ℕ
  pub seed_nanos : ℕ
  pub thread_id : ℕ
  pub domain : Option Text
  pub uninitialised : Text
  pub spurious : ℕ → Bool

-- Constants of `rmw` and of `robotops_msgs`.
pub record Constants : Type 0 where
  pub ret_ok : ℕ
  pub ret_error : ℕ
  pub event_types : EventTypes
  pub correlation_fallback_hash : ℕ
  pub direction_producer : ℕ
  pub direction_consumer : ℕ

-- What a take returns: the code, `*taken`, and the header that it fills in.
pub record Taken (U H : Type 0) : Type 0 where
  pub ret : ℕ
  pub taken : Bool
  pub header : H
  pub outside : U

-- `rmw_message_info_t`, as far as it is read. Signed 64-bit numbers are their bit patterns.
pub record MessageInfo : Type 0 where
  pub publisher_gid : List ℕ
  pub source_timestamp : ℕ

-- `rmw_service_info_t`, as far as it is read.
pub record ServiceInfo : Type 0 where
  pub sequence_number : ℕ
  pub source_timestamp : ℕ

-- The function pointers into the underlying middleware, `none` while they are not loaded. A pointer
-- argument is its address; the two null flags say whether an out-pointer of the caller is null.
pub record Underlying (U : Type 0) : Type 0 where
  pub memory : U → Memory
  pub publish : Option (U → ℕ → ℕ → ℕ × U)
  pub publish_serialized : Option (U → ℕ → ℕ → ℕ × U)
  pub take_with_info : Option (U → ℕ → ℕ → Taken U MessageInfo)
  pub send_request : Option (U → ℕ → ℕ → ℕ × ℕ × U)
  pub take_response : Option (U → ℕ → ℕ → Taken U ServiceInfo)
  pub take_request : Option (U → ℕ → ℕ → Taken U ServiceInfo)
  pub send_response : Option (U → ℕ → Bool → ℕ → ℕ → ℕ × U)

-- `DEFAULT_TRACE_QUEUE_SIZE` and `CONTEXT_CHANGE_QUEUE_SIZE`.
abbrev pub default_trace_queue_size : ℕ
default_trace_queue_size = 1024

abbrev pub context_change_queue_size : ℕ
context_change_queue_size = 512

module _ {U : Type 0} (r : Readings) where
  unfoldable pub push_event : TraceEvent → World U → Bool × World U
  push_event event w =
      let (done, q) = try_push default_trace_queue_size blank_event r.spurious w.events event in
      (done, record w { events = q })

  -- `enqueue_context_change`, whose result the callers drop.
  unfoldable pub enqueue_context_change : TraceContextChangeEvent → World U → World U
  enqueue_context_change event w =
      let (done, q) = try_push context_change_queue_size blank_change r.spurious w.changes event in
      record w { changes = q }

  unfoldable pub draw_span_id : World U → Text × World U
  draw_span_id w =
      let (id, rng) = generate_span_id r.seed_nanos r.thread_id w.thread.rng in
      (id, record w { thread = record (w.thread) { rng = rng } })

  unfoldable pub draw_trace_id : World U → Text × World U
  draw_trace_id w =
      let (id, rng) = generate_trace_id r.seed_nanos r.thread_id w.thread.rng in
      (id, record w { thread = record (w.thread) { rng = rng } })

module _ {U : Type 0} where
  unfoldable pub check_tracing : World U → Bool × World U
  check_tracing w =
      let (on, s) = is_tracing_enabled w.health.state in
      (on, record w { health = record (w.health) { state = s } })

  unfoldable pub note_failure : World U → World U
  note_failure w = record w { health = record_trace_failure w.health }

  unfoldable pub note_success : World U → World U
  note_success w = record w { health = record_trace_success w.health }

  unfoldable pub count_emitted : World U → World U
  count_emitted w = record w { health = increment_traces_emitted w.health }

  unfoldable pub count_dropped : World U → World U
  count_dropped w = record w { health = increment_traces_dropped w.health }
