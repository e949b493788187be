-- ===== src/Topic.antt =====
-- src/utils.cpp and include/rmw_robotops/utils.hpp: action topics told by their names, the domain id
-- from the environment, and the publisher GID as hex.
pub mod Names
pub mod Ids
use rmw_robotops.Base.{
  ℕ, ◌+◌, ◌-◌, ◌/◌, ◌%◌, ◌*◌, Bool, true, false, ◌||◌, not, Option, none, some, List, [], ◌∷◌, ◌++◌,
  ltb, leb, if◌then◌else◌, length, drop, ◌==◌, ◌&&◌,
}
use Prim.Native.String.{String}
use Prim.Native.Char.{code}
use rmw_robotops.Text.{Text, same_text}
use rmw_robotops.SpanId.{hex_char}

-- The bytes of an ASCII text.
abbrev pub bytes : String → Text
bytes String.[] = []
bytes (String.◌∷◌ c s) = code c ∷ bytes s

-- Either pointer may be null.
unfoldable pub ends_with : Option Text → Option Text → Bool
ends_with none suffix = false
ends_with (some str) none = false
ends_with (some str) (some suffix) =
    if ltb (length str) (length suffix)
    then false
    else same_text (drop (length str - length suffix) str) suffix

-- The `EVENT_*` constants of robotops_msgs, whose numbers the message package fixes.
pub record EventTypes : Type 0 where
  pub publish_rmw_start : ℕ
  pub publish_rmw_end : ℕ
  pub take_rmw_start : ℕ
  pub take_rmw_end : ℕ
  pub action_goal : ℕ
  pub action_cancel : ℕ
  pub action_result : ℕ
  pub action_feedback : ℕ
  pub service_request : ℕ
  pub service_response : ℕ

unfoldable pub plain_event_type : EventTypes → Bool → Bool → ℕ
plain_event_type k is_publisher is_start_event =
    if is_publisher
    then (if is_start_event then k.publish_rmw_start else k.publish_rmw_end)
    else (if is_start_event then k.take_rmw_start else k.take_rmw_end)

abbrev pub send_goal : Text
send_goal = bytes "/_action/send_goal"

abbrev pub cancel_goal : Text
cancel_goal = bytes "/_action/cancel_goal"

abbrev pub get_result : Text
get_result = bytes "/_action/get_result"

abbrev pub feedback : Text
feedback = bytes "/_action/feedback"

named_event_type : EventTypes → Text → Bool → Bool → ℕ
named_event_type k topic is_publisher is_start_event =
    if ends_with (some topic) (some send_goal)
    then k.action_goal
    else (if ends_with (some topic) (some cancel_goal)
        then k.action_cancel
        else (if ends_with (some topic) (some get_result)
            then k.action_result
            else (if ends_with (some topic) (some feedback)
                then k.action_feedback
                else plain_event_type k is_publisher is_start_event)))

pub detect_action_event_type : EventTypes → Option Text → Bool → Bool → ℕ
unfolding named_event_type plain_event_type
detect_action_event_type k none is_publisher is_start_event =
    plain_event_type k is_publisher is_start_event
detect_action_event_type k (some topic) is_publisher is_start_event =
    named_event_type k topic is_publisher is_start_event

-- `gid_to_hex_string`: "%02x" of each byte.
pub gid_to_hex_string : List ℕ → Text
gid_to_hex_string [] = []
gid_to_hex_string (b ∷ gid) = hex_char (b / 16) ∷ hex_char (b % 16) ∷ gid_to_hex_string gid
