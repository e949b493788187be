-- ===== src/Stubs/Table.antt =====
-- Every stub. The ones for the interfaces since ROS 2 Iron are among them.
pub mod Early
pub mod Middle
pub mod Late
use rmw_robotops.Base.{List, [], ◌++◌}
use rmw_robotops.Stubs.{Stub}
use rmw_robotops.Stubs.Table.Early.{
  stubs_from_allocate, stubs_from_subscription_free, stubs_from_wait_set_allocate,
  stubs_from_discovery_options_copy, stubs_from_publisher_event_init,
  stubs_from_publisher_get_network_flow_endpoints, stubs_from_get_client_names_and_types_by_node,
  stubs_from_context_fini, stubs_from_get_zero_initialized_names_and_types,
}
use rmw_robotops.Stubs.Table.Middle.{
  stubs_from_network_flow_endpoint_get_internet_protocol_string,
  stubs_from_get_default_publisher_options, stubs_from_qos_policy_kind_from_str,
  stubs_from_node_get_graph_guard_condition, stubs_from_publisher_count_matched_subscriptions,
  stubs_from_deserialize, stubs_from_subscription_get_content_filter,
  stubs_from_take_loaned_message_with_info, stubs_from_create_guard_condition,
}
use rmw_robotops.Stubs.Table.Late.{
  stubs_from_get_node_names, stubs_from_get_gid_for_publisher,
  stubs_from_service_set_on_new_request_callback, stubs_from_security_options_copy,
  stubs_from_subscription_content_filter_options_copy,
  stubs_from_get_zero_initialized_topic_endpoint_info,
  stubs_from_topic_endpoint_info_set_endpoint_type, stubs_from_topic_endpoint_info_array_fini,
  stubs_from_validate_namespace_with_size,
}

abbrev pub stubs : List Stub
stubs =
    stubs_from_allocate ++ stubs_from_subscription_free ++ stubs_from_wait_set_allocate
    ++ stubs_from_discovery_options_copy ++ stubs_from_publisher_event_init
    ++ stubs_from_publisher_get_network_flow_endpoints
    ++ stubs_from_get_client_names_and_types_by_node ++ stubs_from_context_fini
    ++ stubs_from_get_zero_initialized_names_and_types
    ++ stubs_from_network_flow_endpoint_get_internet_protocol_string
    ++ stubs_from_get_default_publisher_options ++ stubs_from_qos_policy_kind_from_str
    ++ stubs_from_node_get_graph_guard_condition ++ stubs_from_publisher_count_matched_subscriptions
    ++ stubs_from_deserialize ++ stubs_from_subscription_get_content_filter
    ++ stubs_from_take_loaned_message_with_info ++ stubs_from_create_guard_condition
    ++ stubs_from_get_node_names ++ stubs_from_get_gid_for_publisher
    ++ stubs_from_service_set_on_new_request_callback ++ stubs_from_security_options_copy
    ++ stubs_from_subscription_content_filter_options_copy
    ++ stubs_from_get_zero_initialized_topic_endpoint_info
    ++ stubs_from_topic_endpoint_info_set_endpoint_type ++ stubs_from_topic_endpoint_info_array_fini
    ++ stubs_from_validate_namespace_with_size
