-- ===== src/Publish.antt =====
-- src/rmw_publisher.cpp: the two calls that publish.
pub mod Transparent
pub mod Account
pub mod Sound
use rmw_robotops.Base.{
  ℕ, zero, suc, ◌%◌, ◌^◌, Bool, true, false, ◌&&◌, Option, none, some, List, [], ◌∷◌, ◌++◌, map,
  ◌==◌, if◌then◌else◌,
}
use rmw_robotops.Base.Assoc.{find, put, erase}
use rmw_robotops.Text.{Text, fill}
use rmw_robotops.Number.{get_dds_domain_id}
use rmw_robotops.Topic.{detect_action_event_type}
use rmw_robotops.Context.{
  TraceContext, empty_context, get_or_mint_trace_context, collect_pending_contexts,
}
use rmw_robotops.Hash.{Nested, null, points, compute_message_hash}
use rmw_robotops.Introspection.{MessageMembers, MessageTypeSupport, resolve_introspection_members}
use rmw_robotops.Endpoint.{
  get_publisher_metadata, cached_members, hash_cached, with_topic_metadata, push_pair, emit_exited,
}
use rmw_robotops.Events.{
  TraceEvent, blank_event, TraceContextChangeEvent, blank_change, context_change_exited, with_ids,
  span_link, max_topic_name_length, max_node_name_length, max_message_type_length, max_span_links,
}
use rmw_robotops.World.{
  World, Readings, Constants, Underlying, TopicMetadata, push_event, enqueue_context_change,
  draw_span_id, check_tracing, note_failure, note_success, count_emitted, count_dropped,
}

-- The publisher, as far as it is read.
pub record Publisher : Type 0 where
  pub address : ℕ
  pub topic_name : Text

-- What the first step of a publish leaves for the third.
pub record Begun : Type 0 where
  pub context : TraceContext
  pub span_id : Text
  pub content_hash : ℕ

-- `rmw_serialized_message_t`: the bytes of its buffer, `none` for a null pointer. The hash of a
-- buffer is xxHash, which is not in the repository.
unfoldable pub compute_content_hash : (Text → ℕ) → Option Text → ℕ
compute_content_hash xxh3 none = 0
compute_content_hash xxh3 (some []) = 0
compute_content_hash xxh3 (some (b ∷ bs)) = xxh3 (b ∷ bs)

module _ {U : Type 0} (k : Constants) (underlying : Underlying U) (r : Readings) where
  unfoldable pub publish_begin : Publisher → ℕ → World U → Begun × World U
  unfolding cached_members hash_cached
  publish_begin publisher ros_message w =
      let (context, t) = get_or_mint_trace_context r.seed_nanos r.thread_id w.thread in
      let (span_id, w') = draw_span_id r (record w { thread = t }) in
      let members = cached_members (get_publisher_metadata publisher.address w') in
      let hash = hash_cached (underlying.memory w'.outside) ros_message members in
      (record { context = context; span_id = span_id; content_hash = hash }, w')

  -- The start event of either kind of publish, before its links.
  unfoldable pub publish_event : Publisher → ℕ → Begun → TraceEvent
  publish_event publisher message begun = with_ids begun.context begun.span_id (record blank_event {
    timestamp_ns = r.now_ns;
    event_type = detect_action_event_type k.event_types (some publisher.topic_name) true true;
    topic_or_service = fill max_topic_name_length publisher.topic_name;
    msg_ptr = message;
    content_hash = begun.content_hash;
    dds_domain_id = get_dds_domain_id r.domain;
    correlation_method = k.correlation_fallback_hash;
  })

  unfoldable pub end_of : Publisher → TraceEvent → TraceEvent
  end_of publisher start_event = record start_event {
    event_type = detect_action_event_type k.event_types (some publisher.topic_name) true false;
  }

  unfoldable pub publish_end : Publisher → ℕ → Begun → World U → World U
  unfolding publish_event end_of
  publish_end publisher ros_message begun w =
      let (pending, t) = collect_pending_contexts false max_span_links w.thread in
      let w1 = record w { thread = t } in
      let linked = record (publish_event publisher ros_message begun) {
        span_links = map span_link pending;
      } in
      let start_event = with_topic_metadata (get_publisher_metadata publisher.address w1) linked in
      emit_exited r start_event (push_pair r start_event (end_of publisher start_event) w1)

  -- STEP 2, and what follows it.
  unfoldable pub publish_through :
      (U → ℕ → ℕ → ℕ × U) → Publisher → ℕ → Option Begun → World U → ℕ × World U
  publish_through send publisher ros_message none w =
      let (ret, u) = send w.outside publisher.address ros_message in (ret, record w { outside = u })
  publish_through send publisher ros_message (some begun) w =
      let (ret, u) = send w.outside publisher.address ros_message in
      let w' = record w { outside = u } in
      (ret, (if ret == k.ret_ok then publish_end publisher ros_message begun w' else w'))

  unfoldable pub publish_loaded : Option (U → ℕ → ℕ → ℕ × U) → Publisher → ℕ → World U → ℕ × World U
  publish_loaded none publisher ros_message w = (k.ret_error, w)
  publish_loaded (some send) publisher ros_message w =
      let (active, w1) = check_tracing w in
      let (begun, w2) = publish_begin publisher ros_message w1 in
      if active
      then publish_through send publisher ros_message (some begun) w2
      else publish_through send publisher ros_message none w1

  unfoldable pub rmw_publish : Publisher → ℕ → World U → ℕ × World U
  unfolding publish_loaded publish_through
  rmw_publish publisher ros_message w = publish_loaded underlying.publish publisher ros_message w

  -- The context is taken after the message has gone out; no links and no context change are emitted.
  unfoldable pub serialized_end : Publisher → ℕ → Text → ℕ → World U → World U
  unfolding publish_event end_of
  serialized_end publisher message span_id hash w =
      let (context, t) = get_or_mint_trace_context r.seed_nanos r.thread_id w.thread in
      let w1 = record w { thread = t } in
      let begun : Begun = record { context = context; span_id = span_id; content_hash = hash } in
      let start_event =
        with_topic_metadata (get_publisher_metadata publisher.address w1)
          (publish_event publisher message begun) in
      push_pair r start_event (end_of publisher start_event) w1

  unfoldable pub serialized_loaded :
      (Text → ℕ) → Option (U → ℕ → ℕ → ℕ × U) → Publisher → ℕ → Option Text → World U → ℕ × World U
  serialized_loaded xxh3 none publisher message buffer w = (k.ret_error, w)
  serialized_loaded xxh3 (some send) publisher message buffer w =
      let (active, w1) = check_tracing w in
      let (span_id, drawn) = draw_span_id r w1 in
      let w2 = if active then drawn else w1 in
      let (ret, u) = send w2.outside publisher.address message in
      let w3 = record w2 { outside = u } in
      (
        ret,
        (if (ret == k.ret_ok) && active
            then serialized_end publisher message span_id (compute_content_hash xxh3 buffer) w3
            else w3),
      )

  unfoldable pub rmw_publish_serialized_message :
      (Text → ℕ) → Publisher → ℕ → Option Text → World U → ℕ × World U
  unfolding serialized_loaded
  rmw_publish_serialized_message xxh3 publisher message buffer w =
      serialized_loaded xxh3 underlying.publish_serialized publisher message buffer w
