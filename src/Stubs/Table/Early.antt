-- ===== src/Stubs/Table/Early.antt =====
-- The stubs of src/rmw_stubs.cpp, lines 61 to 1295, in groups in their order there.
use rmw_robotops.Base.{List, [], ◌∷◌}
use rmw_robotops.Topic.{bytes}
use rmw_robotops.Stubs.{Stub, error_code, null_pointer, false_value, empty_value, nothing}

abbrev pub stubs_from_allocate : List Stub
stubs_from_allocate =
    record { name = bytes "rmw_allocate"; fallback = null_pointer }
    ∷ record { name = bytes "rmw_free"; fallback = nothing }
    ∷ record { name = bytes "rmw_node_allocate"; fallback = null_pointer }
    ∷ record { name = bytes "rmw_node_free"; fallback = nothing }
    ∷ record { name = bytes "rmw_publisher_allocate"; fallback = null_pointer }
    ∷ record { name = bytes "rmw_publisher_free"; fallback = nothing }
    ∷ record { name = bytes "rmw_subscription_allocate"; fallback = null_pointer }
    ∷ []

abbrev pub stubs_from_subscription_free : List Stub
stubs_from_subscription_free =
    record { name = bytes "rmw_subscription_free"; fallback = nothing }
    ∷ record { name = bytes "rmw_guard_condition_allocate"; fallback = null_pointer }
    ∷ record { name = bytes "rmw_guard_condition_free"; fallback = nothing }
    ∷ record { name = bytes "rmw_client_allocate"; fallback = null_pointer }
    ∷ record { name = bytes "rmw_client_free"; fallback = nothing }
    ∷ record { name = bytes "rmw_service_allocate"; fallback = null_pointer }
    ∷ record { name = bytes "rmw_service_free"; fallback = nothing }
    ∷ []

abbrev pub stubs_from_wait_set_allocate : List Stub
stubs_from_wait_set_allocate =
    record { name = bytes "rmw_wait_set_allocate"; fallback = null_pointer }
    ∷ record { name = bytes "rmw_wait_set_free"; fallback = nothing }
    ∷ record { name = bytes "rmw_convert_rcutils_ret_to_rmw_ret"; fallback = error_code }
    ∷ record { name = bytes "rmw_get_zero_initialized_discovery_options"; fallback = empty_value }
    ∷ record { name = bytes "rmw_discovery_options_init"; fallback = error_code }
    ∷ record { name = bytes "rmw_discovery_options_equal"; fallback = error_code }
    ∷ []

abbrev pub stubs_from_discovery_options_copy : List Stub
stubs_from_discovery_options_copy =
    record { name = bytes "rmw_discovery_options_copy"; fallback = error_code }
    ∷ record { name = bytes "rmw_discovery_options_fini"; fallback = error_code }
    ∷ record { name = bytes "rmw_take_dynamic_message"; fallback = error_code }
    ∷ record { name = bytes "rmw_take_dynamic_message_with_info"; fallback = error_code }
    ∷ record { name = bytes "rmw_serialization_support_init"; fallback = error_code }
    ∷ record { name = bytes "rmw_get_zero_initialized_event"; fallback = empty_value }
    ∷ []

abbrev pub stubs_from_publisher_event_init : List Stub
stubs_from_publisher_event_init =
    record { name = bytes "rmw_publisher_event_init"; fallback = error_code }
    ∷ record { name = bytes "rmw_subscription_event_init"; fallback = error_code }
    ∷ record { name = bytes "rmw_take_event"; fallback = error_code }
    ∷ record { name = bytes "rmw_event_fini"; fallback = error_code }
    ∷ record { name = bytes "rmw_event_type_is_supported"; fallback = false_value }
    ∷ record { name = bytes "rmw_feature_supported"; fallback = false_value }
    ∷ []

abbrev pub stubs_from_publisher_get_network_flow_endpoints : List Stub
stubs_from_publisher_get_network_flow_endpoints =
    record { name = bytes "rmw_publisher_get_network_flow_endpoints"; fallback = error_code }
    ∷ record { name = bytes "rmw_subscription_get_network_flow_endpoints"; fallback = error_code }
    ∷ record { name = bytes "rmw_get_subscriber_names_and_types_by_node"; fallback = error_code }
    ∷ record { name = bytes "rmw_get_publisher_names_and_types_by_node"; fallback = error_code }
    ∷ record { name = bytes "rmw_get_service_names_and_types_by_node"; fallback = error_code }
    ∷ []

abbrev pub stubs_from_get_client_names_and_types_by_node : List Stub
stubs_from_get_client_names_and_types_by_node =
    record { name = bytes "rmw_get_client_names_and_types_by_node"; fallback = error_code }
    ∷ record { name = bytes "rmw_get_service_names_and_types"; fallback = error_code }
    ∷ record { name = bytes "rmw_get_publishers_info_by_topic"; fallback = error_code }
    ∷ record { name = bytes "rmw_get_subscriptions_info_by_topic"; fallback = error_code }
    ∷ record { name = bytes "rmw_get_topic_names_and_types"; fallback = error_code }
    ∷ record { name = bytes "rmw_get_zero_initialized_context"; fallback = empty_value }
    ∷ []

abbrev pub stubs_from_context_fini : List Stub
stubs_from_context_fini =
    record { name = bytes "rmw_context_fini"; fallback = error_code }
    ∷ record { name = bytes "rmw_get_zero_initialized_message_sequence"; fallback = empty_value }
    ∷ record { name = bytes "rmw_message_sequence_init"; fallback = error_code }
    ∷ record { name = bytes "rmw_message_sequence_fini"; fallback = error_code }
    ∷ record {
      name = bytes "rmw_get_zero_initialized_message_info_sequence";
      fallback = empty_value;
    }
    ∷ record { name = bytes "rmw_message_info_sequence_init"; fallback = error_code }
    ∷ record { name = bytes "rmw_message_info_sequence_fini"; fallback = error_code }
    ∷ []

abbrev pub stubs_from_get_zero_initialized_names_and_types : List Stub
stubs_from_get_zero_initialized_names_and_types =
    record { name = bytes "rmw_get_zero_initialized_names_and_types"; fallback = empty_value }
    ∷ record { name = bytes "rmw_names_and_types_check_zero"; fallback = error_code }
    ∷ record { name = bytes "rmw_names_and_types_init"; fallback = error_code }
    ∷ record { name = bytes "rmw_names_and_types_fini"; fallback = error_code }
    ∷ record {
      name = bytes "rmw_get_zero_initialized_network_flow_endpoint";
      fallback = empty_value;
    }
    ∷ record {
      name = bytes "rmw_network_flow_endpoint_get_transport_protocol_string";
      fallback = null_pointer;
    }
    ∷ []
