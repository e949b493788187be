-- ===== src/Client.antt =====
-- src/rmw_client.cpp: the clients, the requests they send and the responses they take.
pub mod Transparent
pub mod Correlation
pub mod Sound
use rmw_robotops.Base.{
  ℕ, zero, suc, Bool, true, false, ◌&&◌, Option, none, some, [], ◌==◌, if◌then◌else◌,
}
use rmw_robotops.Base.Assoc.{find, put, erase}
use rmw_robotops.Text.{Text, fill}
use rmw_robotops.Number.{get_dds_domain_id}
use rmw_robotops.Context.{TraceContext, set_trace_context, get_or_mint_trace_context}
use rmw_robotops.Introspection.{ServiceTypeSupport}
use rmw_robotops.Events.{TraceEvent, blank_event, with_ids}
use rmw_robotops.Endpoint.{Node, Destroy, hash_cached, emit_entered}
use rmw_robotops.Rpc.{
  CreateService, service_metadata, request_side, response_side, with_service_metadata, push_one,
}
use rmw_robotops.World.{
  World, Readings, Constants, Underlying, Taken, ServiceInfo, ServiceMetadata, PendingRequest,
  draw_span_id, draw_trace_id, check_tracing,
}

module _ {U : Type 0} where
  unfoldable pub store_client_metadata :
      ℕ → Node → Option ServiceTypeSupport → Text → World U → World U
  unfolding service_metadata
  store_client_metadata client node type_support service_name w = record w {
    clients = put w.clients client (service_metadata node type_support service_name);
  }

  unfoldable pub get_client_metadata : ℕ → World U → Option ServiceMetadata
  get_client_metadata client w = find w.clients client

  unfoldable pub remove_client_metadata : ℕ → World U → World U
  remove_client_metadata client w = record w { clients = erase w.clients client }

  unfoldable pub rmw_create_client :
      Option (CreateService U) → Node → Option ServiceTypeSupport → Text → World U → ℕ × World U
  rmw_create_client none node type_support service_name w = (0, w)
  rmw_create_client (some create) node type_support service_name w =
      let (client, u) = create w.outside node type_support service_name in
      let w' = record w { outside = u } in
      (
        client,
        (if client == 0
            then w'
            else store_client_metadata client node type_support service_name w'),
      )

  unfoldable pub rmw_destroy_client :
      Constants → Option (Destroy U) → Node → ℕ → World U → ℕ × World U
  rmw_destroy_client k none node client w = (k.ret_error, w)
  rmw_destroy_client k (some destroy) node client w =
      let w' = remove_client_metadata client w in
      let (ret, u) = destroy w'.outside node client in (ret, record w' { outside = u })

-- The pointer to the sequence id, or to the request header, may be null.
unfoldable pub unless_null : Bool → ℕ → ℕ
unless_null true n = 0
unless_null false n = n

module _ {U : Type 0} (k : Constants) (underlying : Underlying U) (r : Readings) where
  unfoldable pub remember_request : Bool → ℕ → TraceContext → Text → World U → World U
  remember_request true sequence_id context span_id w = w
  remember_request false sequence_id context span_id w =
      let pending : PendingRequest = record {
        trace_id = fill 33 context.trace_id;
        span_id = fill 17 span_id;
        timestamp_ns = r.now_ns;
      } in
      record w { pending_requests = put w.pending_requests sequence_id pending }

  unfoldable pub request_event : Bool → ℕ → TraceContext → Text → ℕ → TraceEvent
  unfolding unless_null
  request_event id_is_null sequence_id context span_id hash =
      with_ids context span_id (record blank_event {
        timestamp_ns = r.now_ns;
        event_type = k.event_types.service_request;
        dds_domain_id = get_dds_domain_id r.domain;
        correlation_method = k.correlation_fallback_hash;
        direction = k.direction_producer;
        sequence_number = unless_null id_is_null sequence_id;
        source_timestamp_ns = r.now_ns;
        content_hash = hash;
      })

  unfoldable pub send_request_end : ℕ → ℕ → Bool → ℕ → TraceContext → Text → World U → World U
  unfolding remember_request request_event
  send_request_end client ros_request id_is_null sequence_id context span_id w =
      let w1 = remember_request id_is_null sequence_id context span_id w in
      let metadata = get_client_metadata client w1 in
      let hash = hash_cached (underlying.memory w1.outside) ros_request (request_side metadata) in
      push_one r
        (with_service_metadata metadata (request_event id_is_null sequence_id context span_id hash))
        w1

  unfoldable pub send_request_loaded :
      Option (U → ℕ → ℕ → ℕ × ℕ × U) → ℕ → ℕ → Bool → World U → ℕ × ℕ × World U
  send_request_loaded none client ros_request id_is_null w = (k.ret_error, 0, w)
  send_request_loaded (some send) client ros_request id_is_null w =
      let (active, w1) = check_tracing w in
      let (context, t) = get_or_mint_trace_context r.seed_nanos r.thread_id w1.thread in
      let (span_id, drawn) = draw_span_id r (record w1 { thread = t }) in
      let w2 = if active then drawn else w1 in
      let (ret, sequence_id, u) = send w2.outside client ros_request in
      let w3 = record w2 { outside = u } in
      (
        ret,
        sequence_id,
        (if (ret == k.ret_ok) && active
            then send_request_end client ros_request id_is_null sequence_id context span_id w3
            else w3),
      )

  -- The code, `*sequence_id` (0 where it is not written) and the state.
  unfoldable pub rmw_send_request : ℕ → ℕ → Bool → World U → ℕ × ℕ × World U
  unfolding send_request_loaded
  rmw_send_request client ros_request id_is_null w =
      send_request_loaded underlying.send_request client ros_request id_is_null w

  -- The pending request of a response, which is taken out of the cache.
  unfoldable pub find_request : Bool → ℕ → World U → Option PendingRequest × World U
  find_request true sequence_number w = (none, w)
  find_request false sequence_number w = (
    find w.pending_requests sequence_number,
    record w { pending_requests = erase w.pending_requests sequence_number },
  )

  unfoldable pub response_context : Option PendingRequest → Text → World U → TraceContext × World U
  response_context (some pending) span_id w = (
    record {
      trace_id = fill 33 pending.trace_id;
      span_id = fill 17 span_id;
      parent_span_id = fill 17 pending.span_id;
    },
    w,
  )
  response_context none span_id w =
      let (trace, w') = draw_trace_id r w in
      (record { trace_id = trace; span_id = fill 17 span_id; parent_span_id = [] }, w')

  unfoldable pub response_event : Bool → ServiceInfo → TraceContext → Text → ℕ → TraceEvent
  unfolding unless_null
  response_event header_is_null header context span_id hash =
      with_ids context span_id (record blank_event {
        timestamp_ns = r.now_ns;
        event_type = k.event_types.service_response;
        dds_domain_id = get_dds_domain_id r.domain;
        correlation_method = k.correlation_fallback_hash;
        direction = k.direction_consumer;
        sequence_number = unless_null header_is_null header.sequence_number;
        source_timestamp_ns = unless_null header_is_null header.source_timestamp;
        content_hash = hash;
      })

  unfoldable pub take_response_end : ℕ → ℕ → Bool → ServiceInfo → Text → World U → World U
  unfolding response_event
  take_response_end client ros_response header_is_null header span_id w =
      let (pending, w1) = find_request header_is_null header.sequence_number w in
      let (new_context, w2) = response_context pending span_id w1 in
      let w3 = record w2 { thread = set_trace_context new_context w2.thread } in
      let metadata = get_client_metadata client w3 in
      let hash = hash_cached (underlying.memory w3.outside) ros_response (response_side metadata) in
      let event =
        with_service_metadata metadata
          (response_event header_is_null header new_context span_id hash) in
      emit_entered r new_context event (push_one r event w3)

  unfoldable pub take_response_loaded :
      Option (U → ℕ → ℕ → Taken U ServiceInfo) → ℕ → ℕ → Bool → World U → ℕ × Bool × World U
  take_response_loaded none client ros_response header_is_null w = (k.ret_error, false, w)
  take_response_loaded (some call) client ros_response header_is_null w =
      let (active, w1) = check_tracing w in
      let (span_id, drawn) = draw_span_id r w1 in
      let w2 = if active then drawn else w1 in
      let t = call w2.outside client ros_response in
      let w3 = record w2 { outside = t.outside } in
      (
        t.ret,
        t.taken,
        (if ((t.ret == k.ret_ok) && t.taken) && active
            then take_response_end client ros_response header_is_null t.header span_id w3
            else w3),
      )

  unfoldable pub rmw_take_response : ℕ → ℕ → Bool → World U → ℕ × Bool × World U
  unfolding take_response_loaded
  rmw_take_response client ros_response header_is_null w =
      take_response_loaded underlying.take_response client ros_response header_is_null w
