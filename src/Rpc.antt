-- ===== src/Rpc.antt =====
-- What src/rmw_client.cpp and src/rmw_service.cpp share: the metadata of a client or a service, the
-- copies of it in an event, and the push of the one event of a call.
use rmw_robotops.Base.{ℕ, Option, none, some, if◌then◌else◌}
use rmw_robotops.Text.{Text, fill}
use rmw_robotops.Hash.{Nested, null}
use rmw_robotops.Introspection.{
  ServiceTypeSupport, get_service_request_members, get_service_response_members,
}
use rmw_robotops.Events.{TraceEvent, max_topic_name_length, max_node_name_length}
use rmw_robotops.Endpoint.{Node}
use rmw_robotops.World.{World, Readings, ServiceMetadata, push_event, note_failure, note_success}

-- A function of the middleware that returns a new client or service, 0 for a null pointer.
abbrev pub CreateService : Type 0 → Type 0
CreateService U = U → Node → Option ServiceTypeSupport → Text → ℕ × U

-- The metadata that is stored when a client or a service is created.
unfoldable pub service_metadata : Node → Option ServiceTypeSupport → Text → ServiceMetadata
service_metadata node type_support service_name = record {
  node_name = fill max_node_name_length node.name;
  node_namespace = fill max_node_name_length node.namespace;
  service_name = fill max_topic_name_length service_name;
  request_members = get_service_request_members type_support;
  response_members = get_service_response_members type_support;
}

unfoldable pub request_side : Option ServiceMetadata → Nested
request_side none = null
request_side (some m) = m.request_members

unfoldable pub response_side : Option ServiceMetadata → Nested
response_side none = null
response_side (some m) = m.response_members

-- The hash and the names of an event, where the client or service is known.
unfoldable pub with_service_metadata : Option ServiceMetadata → TraceEvent → TraceEvent
with_service_metadata none event = event
with_service_metadata (some m) event = record event {
  topic_or_service = fill max_topic_name_length m.service_name;
  node_name = fill max_node_name_length m.node_name;
  node_namespace = fill max_node_name_length m.node_namespace;
}

-- The one event of a call, and whether it counts as a failure. No event is counted here.
unfoldable pub push_one : {U : Type 0} → Readings → TraceEvent → World U → World U
push_one r event w =
    let (pushed, w') = push_event r event w in if pushed then note_success w' else note_failure w'
