-- ===== src/Stubs/Table/Late.antt =====
-- The stubs of src/rmw_stubs.cpp, lines 2539 to 3756, in groups in their order there.
use rmw_robotops.Base.{List, [], ◌∷◌}
use rmw_robotops.Topic.{bytes}
use rmw_robotops.Stubs.{Stub, error_code, null_pointer, false_value, empty_value}

abbrev pub stubs_from_get_node_names : List Stub
stubs_from_get_node_names =
    record { name = bytes "rmw_get_node_names"; fallback = error_code }
    ∷ record { name = bytes "rmw_get_node_names_with_enclaves"; fallback = error_code }
    ∷ record { name = bytes "rmw_count_publishers"; fallback = error_code }
    ∷ record { name = bytes "rmw_count_subscribers"; fallback = error_code }
    ∷ record { name = bytes "rmw_count_clients"; fallback = error_code }
    ∷ record { name = bytes "rmw_count_services"; fallback = error_code }
    ∷ []

abbrev pub stubs_from_get_gid_for_publisher : List Stub
stubs_from_get_gid_for_publisher =
    record { name = bytes "rmw_get_gid_for_publisher"; fallback = error_code }
    ∷ record { name = bytes "rmw_get_gid_for_client"; fallback = error_code }
    ∷ record { name = bytes "rmw_compare_gids_equal"; fallback = error_code }
    ∷ record { name = bytes "rmw_service_server_is_available"; fallback = error_code }
    ∷ record { name = bytes "rmw_set_log_severity"; fallback = error_code }
    ∷ record { name = bytes "rmw_subscription_set_on_new_message_callback"; fallback = error_code }
    ∷ []

abbrev pub stubs_from_service_set_on_new_request_callback : List Stub
stubs_from_service_set_on_new_request_callback =
    record { name = bytes "rmw_service_set_on_new_request_callback"; fallback = error_code }
    ∷ record { name = bytes "rmw_client_set_on_new_response_callback"; fallback = error_code }
    ∷ record { name = bytes "rmw_event_set_callback"; fallback = error_code }
    ∷ record { name = bytes "rmw_check_zero_rmw_string_array"; fallback = error_code }
    ∷ record { name = bytes "rmw_get_zero_initialized_security_options"; fallback = empty_value }
    ∷ record { name = bytes "rmw_get_default_security_options"; fallback = empty_value }
    ∷ []

abbrev pub stubs_from_security_options_copy : List Stub
stubs_from_security_options_copy =
    record { name = bytes "rmw_security_options_copy"; fallback = error_code }
    ∷ record { name = bytes "rmw_security_options_set_root_path"; fallback = error_code }
    ∷ record { name = bytes "rmw_security_options_fini"; fallback = error_code }
    ∷ record {
      name = bytes "rmw_get_zero_initialized_content_filter_options";
      fallback = empty_value;
    }
    ∷ record { name = bytes "rmw_subscription_content_filter_options_init"; fallback = error_code }
    ∷ record { name = bytes "rmw_subscription_content_filter_options_set"; fallback = error_code }
    ∷ []

abbrev pub stubs_from_subscription_content_filter_options_copy : List Stub
stubs_from_subscription_content_filter_options_copy =
    record { name = bytes "rmw_subscription_content_filter_options_copy"; fallback = error_code }
    ∷ record { name = bytes "rmw_subscription_content_filter_options_fini"; fallback = error_code }
    ∷ record { name = bytes "rmw_get_default_subscription_options"; fallback = empty_value }
    ∷ record { name = bytes "rmw_time_equal"; fallback = false_value }
    ∷ record { name = bytes "rmw_time_total_nsec"; fallback = empty_value }
    ∷ record { name = bytes "rmw_time_from_nsec"; fallback = empty_value }
    ∷ record { name = bytes "rmw_time_normalize"; fallback = empty_value }
    ∷ []

abbrev pub stubs_from_get_zero_initialized_topic_endpoint_info : List Stub
stubs_from_get_zero_initialized_topic_endpoint_info =
    record { name = bytes "rmw_get_zero_initialized_topic_endpoint_info"; fallback = empty_value }
    ∷ record { name = bytes "rmw_topic_endpoint_info_fini"; fallback = error_code }
    ∷ record { name = bytes "rmw_topic_endpoint_info_set_topic_type"; fallback = error_code }
    ∷ record { name = bytes "rmw_topic_endpoint_info_set_topic_type_hash"; fallback = error_code }
    ∷ record { name = bytes "rmw_topic_endpoint_info_set_node_name"; fallback = error_code }
    ∷ record { name = bytes "rmw_topic_endpoint_info_set_node_namespace"; fallback = error_code }
    ∷ []

abbrev pub stubs_from_topic_endpoint_info_set_endpoint_type : List Stub
stubs_from_topic_endpoint_info_set_endpoint_type =
    record { name = bytes "rmw_topic_endpoint_info_set_endpoint_type"; fallback = error_code }
    ∷ record { name = bytes "rmw_topic_endpoint_info_set_gid"; fallback = error_code }
    ∷ record { name = bytes "rmw_topic_endpoint_info_set_qos_profile"; fallback = error_code }
    ∷ record {
      name = bytes "rmw_get_zero_initialized_topic_endpoint_info_array";
      fallback = empty_value;
    }
    ∷ record { name = bytes "rmw_topic_endpoint_info_array_check_zero"; fallback = error_code }
    ∷ record { name = bytes "rmw_topic_endpoint_info_array_init_with_size"; fallback = error_code }
    ∷ []

abbrev pub stubs_from_topic_endpoint_info_array_fini : List Stub
stubs_from_topic_endpoint_info_array_fini =
    record { name = bytes "rmw_topic_endpoint_info_array_fini"; fallback = error_code }
    ∷ record { name = bytes "rmw_get_zero_initialized_message_info"; fallback = empty_value }
    ∷ record { name = bytes "rmw_validate_full_topic_name"; fallback = error_code }
    ∷ record { name = bytes "rmw_validate_full_topic_name_with_size"; fallback = error_code }
    ∷ record {
      name = bytes "rmw_full_topic_name_validation_result_string";
      fallback = null_pointer;
    }
    ∷ record { name = bytes "rmw_validate_namespace"; fallback = error_code }
    ∷ []

abbrev pub stubs_from_validate_namespace_with_size : List Stub
stubs_from_validate_namespace_with_size =
    record { name = bytes "rmw_validate_namespace_with_size"; fallback = error_code }
    ∷ record { name = bytes "rmw_namespace_validation_result_string"; fallback = null_pointer }
    ∷ record { name = bytes "rmw_validate_node_name"; fallback = error_code }
    ∷ record { name = bytes "rmw_validate_node_name_with_size"; fallback = error_code }
    ∷ record { name = bytes "rmw_node_name_validation_result_string"; fallback = null_pointer }
    ∷ []
