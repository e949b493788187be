-- ===== src/Take.antt =====
-- src/rmw_subscription.cpp: the two calls that take a message.
pub mod Transparent
pub mod Links
pub mod Sound
use rmw_robotops.Base.{
  ℕ, zero, suc, Bool, true, false, ◌&&◌, not, Option, none, some, List, [], ◌∷◌, ◌==◌,
  if◌then◌else◌, take,
}
use rmw_robotops.Text.{Text, fill, same_text}
use rmw_robotops.Number.{get_dds_domain_id}
use rmw_robotops.Topic.{detect_action_event_type, gid_to_hex_string}
use rmw_robotops.Context.{
  TraceContext, Thread, is_empty, get_trace_context, set_trace_context, save_pending_context,
  trace_id_length,
}
use rmw_robotops.Endpoint.{
  get_subscription_metadata, cached_members, hash_cached, with_topic_metadata, push_pair,
  emit_entered,
}
use rmw_robotops.Events.{
  TraceEvent, blank_event, with_ids, max_topic_name_length, max_publisher_gid_length,
}
use rmw_robotops.World.{
  World, Readings, Constants, Underlying, Taken, MessageInfo, draw_span_id, draw_trace_id,
  check_tracing,
}

-- The subscription, as far as it is read.
pub record Subscription : Type 0 where
  pub address : ℕ
  pub topic_name : Text

-- `CorrelationMetadata`.
pub record CorrelationMetadata : Type 0 where
  pub publisher_gid : Text
  pub sequence_number : ℕ
  pub source_timestamp_ns : ℕ
  pub content_hash : ℕ
  pub correlation_method : ℕ

-- The caller may pass a null pointer for the info.
unfoldable pub correlation_of : Constants → Bool → MessageInfo → CorrelationMetadata
correlation_of k info_is_null info =
    if info_is_null
    then record {
      publisher_gid = [];
      sequence_number = 0;
      source_timestamp_ns = 0;
      content_hash = 0;
      correlation_method = k.correlation_fallback_hash;
    }
    else record {
      publisher_gid = gid_to_hex_string info.publisher_gid;
      sequence_number = 0;
      source_timestamp_ns = info.source_timestamp;
      content_hash = 0;
      correlation_method = k.correlation_fallback_hash;
    }

module _ {U : Type 0} (k : Constants) (underlying : Underlying U) (r : Readings) where
  -- The context of the span: the trace goes on if the thread has one, and begins here otherwise.
  unfoldable pub take_context : Text → World U → TraceContext × World U
  take_context span_id w =
      let extracted = get_trace_context w.thread in
      let (trace, drawn) = draw_trace_id r w in
      if not (is_empty extracted)
      then (
        record {
          trace_id = fill 33 extracted.trace_id;
          span_id = fill 17 span_id;
          parent_span_id = fill 17 extracted.span_id;
        },
        w,
      )
      else (record { trace_id = trace; span_id = fill 17 span_id; parent_span_id = [] }, drawn)

  -- Fan-in: a context of another trace is saved for the links. `strncmp` looks at 32 bytes.
  unfoldable pub save_other_trace : TraceContext → World U → World U
  save_other_trace new_context w =
      let current = get_trace_context w.thread in
      let differs = not (
        same_text (take trace_id_length current.trace_id)
          (take trace_id_length new_context.trace_id)) in
      if not (is_empty current) && differs
      then record w { thread = (save_pending_context current w.thread).1 }
      else w

  unfoldable pub take_event :
      Subscription → ℕ → Text → CorrelationMetadata → ℕ → TraceContext → TraceEvent
  take_event subscription ros_message span_id correlation hash context =
      with_ids context span_id (record blank_event {
        timestamp_ns = r.now_ns;
        event_type =
            detect_action_event_type k.event_types (some subscription.topic_name) false true;
        topic_or_service = fill max_topic_name_length subscription.topic_name;
        msg_ptr = ros_message;
        content_hash = hash;
        dds_domain_id = get_dds_domain_id r.domain;
        correlation_method = correlation.correlation_method;
        publisher_gid = fill max_publisher_gid_length correlation.publisher_gid;
        sequence_number = correlation.sequence_number;
        source_timestamp_ns = correlation.source_timestamp_ns;
      })

  -- What follows the context: the hash, the two events and CONTEXT_ENTERED.
  unfoldable pub take_emit :
      Subscription → ℕ → Text → CorrelationMetadata → TraceContext → World U → World U
  unfolding take_event
  take_emit subscription ros_message span_id correlation context w =
      let metadata = get_subscription_metadata subscription.address w in
      let hash = hash_cached (underlying.memory w.outside) ros_message (cached_members metadata) in
      let start_event =
        with_topic_metadata metadata
          (take_event subscription ros_message span_id correlation hash context) in
      let end_event = record start_event {
        event_type =
            detect_action_event_type k.event_types (some subscription.topic_name) false false;
      } in
      emit_entered r context start_event (push_pair r start_event end_event w)

  unfoldable pub take_end : Subscription → ℕ → Bool → MessageInfo → Text → World U → World U
  take_end subscription ros_message info_is_null info span_id w =
      let correlation = correlation_of k info_is_null info in
      let (new_context, w1) = take_context span_id w in
      let w2 = save_other_trace new_context w1 in
      let w3 = record w2 { thread = set_trace_context new_context w2.thread } in
      take_emit subscription ros_message span_id correlation new_context w3

  unfoldable pub take_loaded :
      Option (U → ℕ → ℕ → Taken U MessageInfo)
      → Subscription
      → ℕ
      → Bool
      → World U
      → ℕ × Bool × World U
  take_loaded none subscription ros_message info_is_null w = (k.ret_error, false, w)
  take_loaded (some call) subscription ros_message info_is_null w =
      let (active, w1) = check_tracing w in
      let (span_id, drawn) = draw_span_id r w1 in
      let w2 = if active then drawn else w1 in
      let t = call w2.outside subscription.address ros_message in
      let w3 = record w2 { outside = t.outside } in
      (
        t.ret,
        t.taken,
        (if ((t.ret == k.ret_ok) && t.taken) && active
            then take_end subscription ros_message info_is_null t.header span_id w3
            else w3),
      )

  -- The code, `*taken` (left alone if the call is not loaded, here false) and the state.
  unfoldable pub rmw_take_with_info : Subscription → ℕ → Bool → World U → ℕ × Bool × World U
  unfolding take_loaded
  rmw_take_with_info subscription ros_message info_is_null w =
      take_loaded underlying.take_with_info subscription ros_message info_is_null w

  -- `rmw_take` passes an info of its own.
  unfoldable pub rmw_take : Subscription → ℕ → World U → ℕ × Bool × World U
  unfolding rmw_take_with_info
  rmw_take subscription ros_message w = rmw_take_with_info subscription ros_message false w
