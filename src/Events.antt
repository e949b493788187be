-- ===== src/Events.antt =====
-- The two event structs of include/rmw_robotops/trace_event_queue.hpp and
-- include/rmw_robotops/trace_context_change_publisher.hpp.
use rmw_robotops.Base.{ℕ, List, [], ◌∷◌, ◌++◌, take}
use rmw_robotops.Text.{Text, fill}
use rmw_robotops.Context.{TraceContext, trace_id_length, span_id_length}

-- `OperationType`, the deprecated field of an event.
pub data OperationType : Type 0 where
  publish subscribe service_request service_response action_goal_sent : OperationType
  action_goal_received action_feedback action_result action_cancel : OperationType
  action_goal_rejected : OperationType

-- `span_link_count` is the length of `span_links`. A pointer is its address.
pub record TraceEvent : Type 0 where
  pub timestamp_ns : ℕ
  pub event_type : ℕ
  pub trace_id : Text
  pub span_id : Text
  pub parent_span_id : Text
  pub span_links : List Text
  pub topic_or_service : Text
  pub node_name : Text
  pub node_namespace : Text
  pub publisher_gid : Text
  pub sequence_number : ℕ
  pub source_timestamp_ns : ℕ
  pub content_hash : ℕ
  pub msg_ptr : ℕ
  pub message_type : Text
  pub message_size_bytes : ℕ
  pub dds_domain_id : ℕ
  pub correlation_method : ℕ
  pub direction : ℕ
  pub operation : OperationType

-- The constructor of the struct.
abbrev pub blank_event : TraceEvent
blank_event = record {
  timestamp_ns = 0;
  event_type = 0;
  trace_id = [];
  span_id = [];
  parent_span_id = [];
  span_links = [];
  topic_or_service = [];
  node_name = [];
  node_namespace = [];
  publisher_gid = [];
  sequence_number = 0;
  source_timestamp_ns = 0;
  content_hash = 0;
  msg_ptr = 0;
  message_type = [];
  message_size_bytes = 0;
  dds_domain_id = 0;
  correlation_method = 0;
  direction = 0;
  operation = publish;
}

pub record TraceContextChangeEvent : Type 0 where
  pub timestamp_ns : ℕ
  pub node_name : Text
  pub node_namespace : Text
  pub thread_id : ℕ
  pub trace_id : Text
  pub span_id : Text
  pub change_type : ℕ

abbrev pub blank_change : TraceContextChangeEvent
blank_change = record {
  timestamp_ns = 0;
  node_name = [];
  node_namespace = [];
  thread_id = 0;
  trace_id = [];
  span_id = [];
  change_type = 0;
}

abbrev pub context_change_entered : ℕ
context_change_entered = 1

abbrev pub context_change_exited : ℕ
context_change_exited = 2

-- `MAX_TOPIC_NAME_LENGTH`, `MAX_NODE_NAME_LENGTH` and so on: the sizes of the buffers.
abbrev pub max_topic_name_length : ℕ
max_topic_name_length = 256

abbrev pub max_node_name_length : ℕ
max_node_name_length = 256

abbrev pub max_message_type_length : ℕ
max_message_type_length = 128

abbrev pub max_publisher_gid_length : ℕ
max_publisher_gid_length = 64

abbrev pub max_span_links : ℕ
max_span_links = 8

-- "%.*s:%.*s" into the 51 bytes of a link.
unfoldable pub span_link : TraceContext → Text
span_link c = fill 51 (take trace_id_length c.trace_id ++ b':' ∷ take span_id_length c.span_id)

-- The ids of an event, copied out of a context and a span id.
unfoldable pub with_ids : TraceContext → Text → TraceEvent → TraceEvent
with_ids c span_id event = record event {
  trace_id = fill 33 c.trace_id;
  span_id = fill 17 span_id;
  parent_span_id = fill 17 c.parent_span_id;
}
