-- ===== src/Service.antt =====
-- src/rmw_service.cpp: the services, the requests they take and the responses they send.
pub mod Transparent
pub mod Pairing
pub mod Sound
use rmw_robotops.Base.{
  ℕ, zero, suc, Bool, true, false, ◌&&◌, Option, none, some, [], ◌==◌, if◌then◌else◌,
}
use rmw_robotops.Base.Assoc.{find, put, erase}
use rmw_robotops.Text.{Text, fill}
use rmw_robotops.Number.{get_dds_domain_id}
use rmw_robotops.Context.{TraceContext, set_trace_context, get_or_mint_trace_context}
use rmw_robotops.Introspection.{ServiceTypeSupport}
use rmw_robotops.Events.{TraceEvent, blank_event, with_ids}
use rmw_robotops.Endpoint.{Node, Destroy, hash_cached, emit_entered, emit_exited}
use rmw_robotops.Rpc.{
  CreateService, service_metadata, request_side, response_side, with_service_metadata, push_one,
}
use rmw_robotops.Client.{unless_null}
use rmw_robotops.World.{
  World, Readings, Constants, Underlying, Taken, ServiceInfo, ServiceMetadata, draw_span_id,
  check_tracing,
}

module _ {U : Type 0} where
  unfoldable pub store_service_metadata :
      ℕ → Node → Option ServiceTypeSupport → Text → World U → World U
  unfolding service_metadata
  store_service_metadata service node type_support service_name w = record w {
    services = put w.services service (service_metadata node type_support service_name);
  }

  unfoldable pub get_service_metadata : ℕ → World U → Option ServiceMetadata
  get_service_metadata service w = find w.services service

  unfoldable pub remove_service_metadata : ℕ → World U → World U
  remove_service_metadata service w = record w { services = erase w.services service }

  unfoldable pub rmw_create_service :
      Option (CreateService U) → Node → Option ServiceTypeSupport → Text → World U → ℕ × World U
  rmw_create_service none node type_support service_name w = (0, w)
  rmw_create_service (some create) node type_support service_name w =
      let (service, u) = create w.outside node type_support service_name in
      let w' = record w { outside = u } in
      (
        service,
        (if service == 0
            then w'
            else store_service_metadata service node type_support service_name w'),
      )

  unfoldable pub rmw_destroy_service :
      Constants → Option (Destroy U) → Node → ℕ → World U → ℕ × World U
  rmw_destroy_service k none node service w = (k.ret_error, w)
  rmw_destroy_service k (some destroy) node service w =
      let w' = remove_service_metadata service w in
      let (ret, u) = destroy w'.outside node service in (ret, record w' { outside = u })

module _ {U : Type 0} (k : Constants) (underlying : Underlying U) (r : Readings) where
  -- The trace and the parent are left to the agent, which correlates by the hash.
  unfoldable pub request_taken_event : Bool → ServiceInfo → Text → ℕ → TraceEvent
  unfolding unless_null
  request_taken_event header_is_null header span_id hash = record blank_event {
    timestamp_ns = r.now_ns;
    event_type = k.event_types.service_request;
    span_id = fill 17 span_id;
    dds_domain_id = get_dds_domain_id r.domain;
    correlation_method = k.correlation_fallback_hash;
    direction = k.direction_consumer;
    sequence_number = unless_null header_is_null header.sequence_number;
    source_timestamp_ns = unless_null header_is_null header.source_timestamp;
    content_hash = hash;
  }

  unfoldable pub take_request_end : ℕ → ℕ → Bool → ServiceInfo → Text → World U → World U
  unfolding request_taken_event
  take_request_end service ros_request header_is_null header span_id w =
      let new_context : TraceContext = record {
        trace_id = [];
        span_id = fill 17 span_id;
        parent_span_id = [];
      } in
      let w1 = record w { thread = set_trace_context new_context w.thread } in
      let metadata = get_service_metadata service w1 in
      let hash = hash_cached (underlying.memory w1.outside) ros_request (request_side metadata) in
      let event =
        with_service_metadata metadata (request_taken_event header_is_null header span_id hash) in
      emit_entered r new_context event (push_one r event w1)

  unfoldable pub take_request_loaded :
      Option (U → ℕ → ℕ → Taken U ServiceInfo) → ℕ → ℕ → Bool → World U → ℕ × Bool × World U
  take_request_loaded none service ros_request header_is_null w = (k.ret_error, false, w)
  take_request_loaded (some call) service ros_request header_is_null w =
      let (active, w1) = check_tracing w in
      let (span_id, drawn) = draw_span_id r w1 in
      let w2 = if active then drawn else w1 in
      let t = call w2.outside service ros_request in
      let w3 = record w2 { outside = t.outside } in
      (
        t.ret,
        t.taken,
        (if ((t.ret == k.ret_ok) && t.taken) && active
            then take_request_end service ros_request header_is_null t.header span_id w3
            else w3),
      )

  unfoldable pub rmw_take_request : ℕ → ℕ → Bool → World U → ℕ × Bool × World U
  unfolding take_request_loaded
  rmw_take_request service ros_request header_is_null w =
      take_request_loaded underlying.take_request service ros_request header_is_null w

  -- The header of a response is the id of its request; it has no source timestamp.
  unfoldable pub response_sent_event : Bool → ℕ → TraceContext → Text → ℕ → TraceEvent
  unfolding unless_null
  response_sent_event header_is_null sequence_number context span_id hash =
      with_ids context span_id (record blank_event {
        timestamp_ns = r.now_ns;
        event_type = k.event_types.service_response;
        dds_domain_id = get_dds_domain_id r.domain;
        correlation_method = k.correlation_fallback_hash;
        direction = k.direction_producer;
        sequence_number = unless_null header_is_null sequence_number;
        content_hash = hash;
      })

  unfoldable pub send_response_end : ℕ → ℕ → Bool → ℕ → TraceContext → World U → World U
  unfolding response_sent_event
  send_response_end service ros_response header_is_null sequence_number context w =
      let metadata = get_service_metadata service w in
      let hash = hash_cached (underlying.memory w.outside) ros_response (response_side metadata) in
      let event =
        with_service_metadata metadata
          (response_sent_event header_is_null sequence_number context context.span_id hash) in
      emit_exited r event (push_one r event w)

  unfoldable pub send_response_loaded :
      Option (U → ℕ → Bool → ℕ → ℕ → ℕ × U) → ℕ → ℕ → Bool → ℕ → World U → ℕ × World U
  send_response_loaded none service ros_response header_is_null sequence_number w = (k.ret_error, w)
  send_response_loaded (some send) service ros_response header_is_null sequence_number w =
      let (active, w1) = check_tracing w in
      let (context, t) = get_or_mint_trace_context r.seed_nanos r.thread_id w1.thread in
      let w2 = if active then record w1 { thread = t } else w1 in
      let (ret, u) = send w2.outside service header_is_null sequence_number ros_response in
      let w3 = record w2 { outside = u } in
      (
        ret,
        (if (ret == k.ret_ok) && active
            then send_response_end service ros_response header_is_null sequence_number context w3
            else w3),
      )

  unfoldable pub rmw_send_response : ℕ → ℕ → Bool → ℕ → World U → ℕ × World U
  unfolding send_response_loaded
  rmw_send_response service ros_response header_is_null sequence_number w =
      send_response_loaded underlying.send_response service ros_response header_is_null
        sequence_number w
