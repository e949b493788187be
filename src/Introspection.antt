-- ===== src/Introspection.antt =====
-- src/utils.cpp: the introspection members behind a type support handle. The handles and the lookup
-- are rosidl's: a handle is what the two probes of it return.
use rmw_robotops.Base.{Bool, true, false, Option, none, some}
use rmw_robotops.Text.{Text}
use rmw_robotops.Hash.{Nested, Members, null}

-- The struct `MessageMembers`: the names of the type, and the entries.
pub record MessageMembers : Type 0 where
  pub message_namespace : Text
  pub message_name : Text
  pub members : Members

-- What `get_message_typesupport_handle` returns for the C and for the C++ identifier.
pub record MessageTypeSupport : Type 0 where
  pub has_data : Bool
  pub introspection_c : Option MessageMembers
  pub introspection_cpp : Option MessageMembers

-- A lookup that misses sets the error state of the thread, which the source resets.
probe_cpp : Option MessageMembers → Bool → Option MessageMembers × Bool
probe_cpp (some m) error_state = (some m, error_state)
probe_cpp none error_state = (none, false)

probe_c : Option MessageMembers → Option MessageMembers → Bool → Option MessageMembers × Bool
unfolding probe_cpp
probe_c (some m) other error_state = (some m, error_state)
probe_c none other error_state = probe_cpp other false

usable : Bool → MessageTypeSupport → Bool → Option MessageMembers × Bool
unfolding probe_c
usable false ts error_state = (none, error_state)
usable true ts error_state = probe_c ts.introspection_c ts.introspection_cpp error_state

-- The handle may be null. The flag is the error state of the thread.
unfoldable pub resolve_introspection_members :
    Option MessageTypeSupport → Bool → Option MessageMembers × Bool
unfolding usable
resolve_introspection_members none error_state = (none, error_state)
resolve_introspection_members (some ts) error_state = usable ts.has_data ts error_state

-- `ServiceMembers`, which `get_service_typesupport_handle` finds for the C identifier or does not.
pub record ServiceMembers : Type 0 where
  pub request_members : Nested
  pub response_members : Nested

abbrev pub ServiceTypeSupport : Type 0
ServiceTypeSupport = Option ServiceMembers

-- The first option is the pointer, the second the result of the lookup and of its data pointer.
unfoldable pub get_service_members : Option ServiceTypeSupport → Option ServiceMembers
get_service_members none = none
get_service_members (some found) = found

request_side : Option ServiceMembers → Nested
request_side none = null
request_side (some m) = m.request_members

response_side : Option ServiceMembers → Nested
response_side none = null
response_side (some m) = m.response_members

unfoldable pub get_service_request_members : Option ServiceTypeSupport → Nested
unfolding get_service_members request_side
get_service_request_members ts = request_side (get_service_members ts)

unfoldable pub get_service_response_members : Option ServiceTypeSupport → Nested
unfolding get_service_members response_side
get_service_response_members ts = response_side (get_service_members ts)
