-- ===== src/Endpoint.antt =====
-- The caches of src/rmw_publisher.cpp and src/rmw_subscription.cpp, the creation and destruction of
-- their entities, and what publish and take share: the copies of cached metadata, and the pushes.
pub mod Lifecycle
use rmw_robotops.Base.{ℕ, false, Option, none, some, ◌∷◌, ◌++◌, ◌==◌, if◌then◌else◌}
use rmw_robotops.Base.Assoc.{find, put, erase}
use rmw_robotops.Text.{Text, fill}
use rmw_robotops.Hash.{Memory, Nested, null, points, compute_message_hash}
use rmw_robotops.Introspection.{MessageMembers, MessageTypeSupport, resolve_introspection_members}
use rmw_robotops.Events.{
  TraceEvent, blank_change, context_change_exited, context_change_entered, max_node_name_length,
  max_message_type_length,
}
use rmw_robotops.Context.{TraceContext}
use rmw_robotops.World.{
  World, Readings, Constants, TopicMetadata, push_event, enqueue_context_change, note_failure,
  note_success, count_emitted, count_dropped,
}

-- The C strings of a node.
pub record Node : Type 0 where
  pub name : Text
  pub namespace : Text

pub type_text : Readings → Option MessageMembers → Text
type_text r none = r.uninitialised
type_text r (some m) = fill max_message_type_length (m.message_namespace ++ b'/' ∷ m.message_name)

pub cached : Option MessageMembers → Nested
cached none = null
cached (some m) = points m.members

-- `message_type` is written only if the members are found: else the buffer keeps what it held.
unfoldable pub store_publisher_metadata :
    {U : Type 0} → Readings → ℕ → Node → Option MessageTypeSupport → World U → World U
unfolding type_text cached
store_publisher_metadata r publisher node type_support w =
    let found = (resolve_introspection_members type_support false).0 in
    let metadata : TopicMetadata = record {
      node_name = fill max_node_name_length node.name;
      node_namespace = fill max_node_name_length node.namespace;
      message_type = type_text r found;
      members = cached found;
    } in
    record w { publishers = put w.publishers publisher metadata }

unfoldable pub get_publisher_metadata : {U : Type 0} → ℕ → World U → Option TopicMetadata
get_publisher_metadata publisher w = find w.publishers publisher

unfoldable pub remove_publisher_metadata : {U : Type 0} → ℕ → World U → World U
remove_publisher_metadata publisher w = record w { publishers = erase w.publishers publisher }

unfoldable pub store_subscription_metadata :
    {U : Type 0} → Readings → ℕ → Node → Option MessageTypeSupport → World U → World U
unfolding type_text cached
store_subscription_metadata r subscription node type_support w =
    let found = (resolve_introspection_members type_support false).0 in
    let metadata : TopicMetadata = record {
      node_name = fill max_node_name_length node.name;
      node_namespace = fill max_node_name_length node.namespace;
      message_type = type_text r found;
      members = cached found;
    } in
    record w { subscriptions = put w.subscriptions subscription metadata }

unfoldable pub get_subscription_metadata : {U : Type 0} → ℕ → World U → Option TopicMetadata
get_subscription_metadata subscription w = find w.subscriptions subscription

unfoldable pub remove_subscription_metadata : {U : Type 0} → ℕ → World U → World U
remove_subscription_metadata subscription w = record w {
  subscriptions = erase w.subscriptions subscription;
}

-- A function of the middleware that returns a new entity, 0 for a null pointer.
abbrev pub Create : Type 0 → Type 0
Create U = U → Node → Option MessageTypeSupport → Text → ℕ × U

abbrev pub Destroy : Type 0 → Type 0
Destroy U = U → Node → ℕ → ℕ × U

unfoldable pub rmw_create_publisher :
    {U : Type 0}
    → Readings
    → Option (Create U)
    → Node
    → Option MessageTypeSupport
    → Text
    → World U
    → ℕ × World U
rmw_create_publisher r none node type_support topic w = (0, w)
rmw_create_publisher r (some create) node type_support topic w =
    let (publisher, u) = create w.outside node type_support topic in
    let w' = record w { outside = u } in
    (
      publisher,
      (if publisher == 0 then w' else store_publisher_metadata r publisher node type_support w'),
    )

unfoldable pub rmw_destroy_publisher :
    {U : Type 0} → Constants → Option (Destroy U) → Node → ℕ → World U → ℕ × World U
rmw_destroy_publisher k none node publisher w = (k.ret_error, w)
rmw_destroy_publisher k (some destroy) node publisher w =
    let w' = remove_publisher_metadata publisher w in
    let (ret, u) = destroy w'.outside node publisher in (ret, record w' { outside = u })

unfoldable pub rmw_create_subscription :
    {U : Type 0}
    → Readings
    → Option (Create U)
    → Node
    → Option MessageTypeSupport
    → Text
    → World U
    → ℕ × World U
rmw_create_subscription r none node type_support topic w = (0, w)
rmw_create_subscription r (some create) node type_support topic w =
    let (subscription, u) = create w.outside node type_support topic in
    let w' = record w { outside = u } in
    (
      subscription,
      (if subscription == 0
          then w'
          else store_subscription_metadata r subscription node type_support w'),
    )

unfoldable pub rmw_destroy_subscription :
    {U : Type 0} → Constants → Option (Destroy U) → Node → ℕ → World U → ℕ × World U
rmw_destroy_subscription k none node subscription w = (k.ret_error, w)
rmw_destroy_subscription k (some destroy) node subscription w =
    let w' = remove_subscription_metadata subscription w in
    let (ret, u) = destroy w'.outside node subscription in (ret, record w' { outside = u })

unfoldable pub cached_members : Option TopicMetadata → Nested
cached_members none = null
cached_members (some m) = m.members

-- The hash is left at 0 where no members are cached.
unfoldable pub hash_cached : Memory → ℕ → Nested → ℕ
hash_cached memory message null = 0
hash_cached memory message (points ms) = compute_message_hash memory message (points ms)

-- The node and type of the event, where the publisher is known.
unfoldable pub with_topic_metadata : Option TopicMetadata → TraceEvent → TraceEvent
with_topic_metadata none event = event
with_topic_metadata (some m) event = record event {
  node_name = fill max_node_name_length m.node_name;
  node_namespace = fill max_node_name_length m.node_namespace;
  message_type = fill max_message_type_length m.message_type;
}

-- Both events of a message, or the failure: a second push is tried only if the first went through.
unfoldable pub push_pair : {U : Type 0} → Readings → TraceEvent → TraceEvent → World U → World U
push_pair r start_event end_event w =
    let (first, w1) = push_event r start_event w in
    let (second, w2) = push_event r end_event w1 in
    if first
    then (if second
        then count_emitted (count_emitted (note_success w2))
        else count_dropped (count_dropped (note_failure w2)))
    else count_dropped (count_dropped (note_failure w1))

-- CONTEXT_EXITED, with the node of the event and no ids.
unfoldable pub emit_exited : {U : Type 0} → Readings → TraceEvent → World U → World U
emit_exited r event w =
    enqueue_context_change r
      (record blank_change {
        timestamp_ns = event.timestamp_ns;
        thread_id = r.thread_id;
        change_type = context_change_exited;
        node_name = fill max_node_name_length event.node_name;
        node_namespace = fill max_node_name_length event.node_namespace;
      })
      w

-- CONTEXT_ENTERED, with the ids of the context and the node of the event.
unfoldable pub emit_entered :
    {U : Type 0} → Readings → TraceContext → TraceEvent → World U → World U
emit_entered r context event w =
    enqueue_context_change r
      (record blank_change {
        timestamp_ns = event.timestamp_ns;
        thread_id = r.thread_id;
        change_type = context_change_entered;
        trace_id = fill 33 context.trace_id;
        span_id = fill 17 context.span_id;
        node_name = fill max_node_name_length event.node_name;
        node_namespace = fill max_node_name_length event.node_namespace;
      })
      w
