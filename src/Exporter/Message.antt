-- ===== src/Exporter/Message.antt =====
-- `convert_to_ros_message` of src/trace_publisher.cpp and of src/trace_context_change_publisher.cpp.
-- A seconds field is the bit pattern of an `int32_t`.
use rmw_robotops.Base.{ℕ, ◌/◌, ◌%◌, ◌^◌, Bool, Option, none, some, List, length, if◌then◌else◌}
use rmw_robotops.Text.{Text}
use rmw_robotops.Events.{TraceEvent, TraceContextChangeEvent, blank_event, blank_change}
use rmw_robotops.Queue.{LockFreeQueue}
use rmw_robotops.World.{default_trace_queue_size, context_change_queue_size}
use rmw_robotops.Exporter.{publisher_thread_func}

pub record TraceMessage : Type 0 where
  pub sec : ℕ
  pub nanosec : ℕ
  pub trace_id : Text
  pub span_id : Text
  pub parent_span_id : Text
  pub span_links : List Text
  pub event_type : ℕ
  pub topic_or_service : Text
  pub node_name : Text
  pub node_namespace : Text
  pub publisher_gid : Text
  pub sequence_number : ℕ
  pub source_timestamp_ns : ℕ
  pub content_hash : ℕ
  pub msg_ptr : ℕ
  pub message_type : Text
  pub message_size_bytes : ℕ
  pub dds_domain_id : ℕ
  pub correlation_method : ℕ
  pub direction : ℕ

-- `init` says whether the allocation of a sequence of so many strings succeeds.
pub convert_trace_event : (ℕ → Bool) → TraceEvent → Option TraceMessage
convert_trace_event init event =
    if init (length event.span_links)
    then some (record {
      sec = (event.timestamp_ns / 1000000000) % 2 ^ 32;
      nanosec = event.timestamp_ns % 1000000000;
      trace_id = event.trace_id;
      span_id = event.span_id;
      parent_span_id = event.parent_span_id;
      span_links = event.span_links;
      event_type = event.event_type;
      topic_or_service = event.topic_or_service;
      node_name = event.node_name;
      node_namespace = event.node_namespace;
      publisher_gid = event.publisher_gid;
      sequence_number = event.sequence_number;
      source_timestamp_ns = event.source_timestamp_ns;
      content_hash = event.content_hash;
      msg_ptr = event.msg_ptr;
      message_type = event.message_type;
      message_size_bytes = event.message_size_bytes;
      dds_domain_id = event.dds_domain_id;
      correlation_method = event.correlation_method;
      direction = event.direction;
    })
    else none

pub record TraceContextChange : Type 0 where
  pub sec : ℕ
  pub nanosec : ℕ
  pub node_name : Text
  pub node_namespace : Text
  pub thread_id : ℕ
  pub trace_id : Text
  pub span_id : Text
  pub change_type : ℕ

pub convert_context_change : TraceContextChangeEvent → Option TraceContextChange
convert_context_change event = some (record {
  sec = (event.timestamp_ns / 1000000000) % 2 ^ 32;
  nanosec = event.timestamp_ns % 1000000000;
  node_name = event.node_name;
  node_namespace = event.node_namespace;
  thread_id = event.thread_id;
  trace_id = event.trace_id;
  span_id = event.span_id;
  change_type = event.change_type;
})

-- The two threads.
module _ {U : Type 0} where
  abbrev pub trace_thread :
      (ℕ → Bool)
      → Option (TraceMessage → U → U)
      → ℕ
      → LockFreeQueue TraceEvent
      → U
      → LockFreeQueue TraceEvent × U
  trace_thread init =
      publisher_thread_func default_trace_queue_size blank_event (convert_trace_event init)

  abbrev pub context_change_thread_func :
      Option (TraceContextChange → U → U)
      → ℕ
      → LockFreeQueue TraceContextChangeEvent
      → U
      → LockFreeQueue TraceContextChangeEvent × U
  context_change_thread_func =
      publisher_thread_func context_change_queue_size blank_change convert_context_change
