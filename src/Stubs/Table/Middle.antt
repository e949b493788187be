-- ===== src/Stubs/Table/Middle.antt =====
-- The stubs of src/rmw_stubs.cpp, lines 1297 to 2537, in groups in their order there.
use rmw_robotops.Base.{List, [], ◌∷◌}
use rmw_robotops.Topic.{bytes}
use rmw_robotops.Stubs.{Stub, error_code, null_pointer, empty_value}

abbrev pub stubs_from_network_flow_endpoint_get_internet_protocol_string : List Stub
stubs_from_network_flow_endpoint_get_internet_protocol_string =
    record {
      name = bytes "rmw_network_flow_endpoint_get_internet_protocol_string";
      fallback = null_pointer;
    }
    ∷ record {
      name = bytes "rmw_network_flow_endpoint_set_internet_address";
      fallback = error_code;
    }
    ∷ record {
      name = bytes "rmw_get_zero_initialized_network_flow_endpoint_array";
      fallback = empty_value;
    }
    ∷ record { name = bytes "rmw_network_flow_endpoint_array_check_zero"; fallback = error_code }
    ∷ record { name = bytes "rmw_network_flow_endpoint_array_init"; fallback = error_code }
    ∷ record { name = bytes "rmw_network_flow_endpoint_array_fini"; fallback = error_code }
    ∷ []

abbrev pub stubs_from_get_default_publisher_options : List Stub
stubs_from_get_default_publisher_options =
    record { name = bytes "rmw_get_default_publisher_options"; fallback = empty_value }
    ∷ record { name = bytes "rmw_qos_profile_check_compatible"; fallback = error_code }
    ∷ record { name = bytes "rmw_qos_policy_kind_to_str"; fallback = null_pointer }
    ∷ record { name = bytes "rmw_qos_durability_policy_to_str"; fallback = null_pointer }
    ∷ record { name = bytes "rmw_qos_history_policy_to_str"; fallback = null_pointer }
    ∷ record { name = bytes "rmw_qos_liveliness_policy_to_str"; fallback = null_pointer }
    ∷ record { name = bytes "rmw_qos_reliability_policy_to_str"; fallback = null_pointer }
    ∷ []

abbrev pub stubs_from_qos_policy_kind_from_str : List Stub
stubs_from_qos_policy_kind_from_str =
    record { name = bytes "rmw_qos_policy_kind_from_str"; fallback = empty_value }
    ∷ record { name = bytes "rmw_qos_durability_policy_from_str"; fallback = empty_value }
    ∷ record { name = bytes "rmw_qos_history_policy_from_str"; fallback = empty_value }
    ∷ record { name = bytes "rmw_qos_liveliness_policy_from_str"; fallback = empty_value }
    ∷ record { name = bytes "rmw_qos_reliability_policy_from_str"; fallback = empty_value }
    ∷ record { name = bytes "rmw_get_serialization_format"; fallback = null_pointer }
    ∷ record { name = bytes "rmw_node_assert_liveliness"; fallback = error_code }
    ∷ []

abbrev pub stubs_from_node_get_graph_guard_condition : List Stub
stubs_from_node_get_graph_guard_condition =
    record { name = bytes "rmw_node_get_graph_guard_condition"; fallback = null_pointer }
    ∷ record { name = bytes "rmw_init_publisher_allocation"; fallback = error_code }
    ∷ record { name = bytes "rmw_fini_publisher_allocation"; fallback = error_code }
    ∷ record { name = bytes "rmw_borrow_loaned_message"; fallback = error_code }
    ∷ record { name = bytes "rmw_return_loaned_message_from_publisher"; fallback = error_code }
    ∷ record { name = bytes "rmw_publish_loaned_message"; fallback = error_code }
    ∷ []

abbrev pub stubs_from_publisher_count_matched_subscriptions : List Stub
stubs_from_publisher_count_matched_subscriptions =
    record { name = bytes "rmw_publisher_count_matched_subscriptions"; fallback = error_code }
    ∷ record { name = bytes "rmw_publisher_get_actual_qos"; fallback = error_code }
    ∷ record { name = bytes "rmw_get_serialized_message_size"; fallback = error_code }
    ∷ record { name = bytes "rmw_publisher_assert_liveliness"; fallback = error_code }
    ∷ record { name = bytes "rmw_publisher_wait_for_all_acked"; fallback = error_code }
    ∷ record { name = bytes "rmw_serialize"; fallback = error_code }
    ∷ []

abbrev pub stubs_from_deserialize : List Stub
stubs_from_deserialize =
    record { name = bytes "rmw_deserialize"; fallback = error_code }
    ∷ record { name = bytes "rmw_init_subscription_allocation"; fallback = error_code }
    ∷ record { name = bytes "rmw_fini_subscription_allocation"; fallback = error_code }
    ∷ record { name = bytes "rmw_subscription_count_matched_publishers"; fallback = error_code }
    ∷ record { name = bytes "rmw_subscription_get_actual_qos"; fallback = error_code }
    ∷ record { name = bytes "rmw_subscription_set_content_filter"; fallback = error_code }
    ∷ []

abbrev pub stubs_from_subscription_get_content_filter : List Stub
stubs_from_subscription_get_content_filter =
    record { name = bytes "rmw_subscription_get_content_filter"; fallback = error_code }
    ∷ record { name = bytes "rmw_take_sequence"; fallback = error_code }
    ∷ record { name = bytes "rmw_take_serialized_message"; fallback = error_code }
    ∷ record { name = bytes "rmw_take_serialized_message_with_info"; fallback = error_code }
    ∷ record { name = bytes "rmw_take_loaned_message"; fallback = error_code }
    ∷ []

abbrev pub stubs_from_take_loaned_message_with_info : List Stub
stubs_from_take_loaned_message_with_info =
    record { name = bytes "rmw_take_loaned_message_with_info"; fallback = error_code }
    ∷ record { name = bytes "rmw_return_loaned_message_from_subscription"; fallback = error_code }
    ∷ record { name = bytes "rmw_client_request_publisher_get_actual_qos"; fallback = error_code }
    ∷ record {
      name = bytes "rmw_client_response_subscription_get_actual_qos";
      fallback = error_code;
    }
    ∷ record {
      name = bytes "rmw_service_request_subscription_get_actual_qos";
      fallback = error_code;
    }
    ∷ record { name = bytes "rmw_service_response_publisher_get_actual_qos"; fallback = error_code }
    ∷ []

abbrev pub stubs_from_create_guard_condition : List Stub
stubs_from_create_guard_condition =
    record { name = bytes "rmw_create_guard_condition"; fallback = null_pointer }
    ∷ record { name = bytes "rmw_destroy_guard_condition"; fallback = error_code }
    ∷ record { name = bytes "rmw_trigger_guard_condition"; fallback = error_code }
    ∷ record { name = bytes "rmw_create_wait_set"; fallback = null_pointer }
    ∷ record { name = bytes "rmw_destroy_wait_set"; fallback = error_code }
    ∷ record { name = bytes "rmw_wait"; fallback = error_code }
    ∷ []
