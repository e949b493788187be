-- ===== src/Tests.antt =====
-- Concrete data for the examples.
pub mod Calls
pub mod Parts
pub mod Layers
pub mod Threads
pub mod Sessions
pub mod Tally
pub mod Lives
pub mod Reports
pub mod Forwarders
use rmw_robotops.Base.{ℕ, ◌+◌, false, true, none, some, [], ◌∷◌}
use rmw_robotops.Topic.{bytes}
use rmw_robotops.Queue.{empty_queue}
use rmw_robotops.Context.{new_thread, TraceContext}
use rmw_robotops.Events.{blank_event, blank_change}
use rmw_robotops.World.{
  World, Readings, Taken, MessageInfo, ServiceInfo, Constants, Underlying, default_trace_queue_size,
  context_change_queue_size,
}
use rmw_robotops.Publish.{Publisher}
use rmw_robotops.Take.{Subscription}

abbrev pub constants : Constants
constants = record {
  ret_ok = 0;
  ret_error = 1;
  event_types = record {
    publish_rmw_start = 1;
    publish_rmw_end = 2;
    take_rmw_start = 3;
    take_rmw_end = 4;
    action_goal = 5;
    action_cancel = 6;
    action_result = 7;
    action_feedback = 8;
    service_request = 9;
    service_response = 10;
  };
  correlation_fallback_hash = 1;
  direction_producer = 1;
  direction_consumer = 2;
}

abbrev pub readings : Readings
readings = record {
  now_ns = 1000;
  seed_nanos = 17;
  thread_id = 5;
  domain = none;
  uninitialised = [];
  spurious = λ i. false;
}

abbrev pub deliver : ℕ → ℕ → ℕ → Taken ℕ MessageInfo
deliver u a m = record {
  ret = 0;
  taken = true;
  header = record { publisher_gid = 1 ∷ 255 ∷ []; source_timestamp = 900 };
  outside = u + 1;
}

abbrev pub request : ℕ → ℕ → ℕ → ℕ × ℕ × ℕ
request u a m = (0, 7, u + 1)

abbrev pub deliver_rpc : ℕ → ℕ → ℕ → Taken ℕ ServiceInfo
deliver_rpc u a m = record {
  ret = 0;
  taken = true;
  header = record { sequence_number = 7; source_timestamp = 900 };
  outside = u + 1;
}

-- A middleware that counts its calls, always delivers, and gives every request the id 7.
abbrev pub middleware : Underlying ℕ
middleware = record {
  memory = λ u. record { byte = λ a. 0; string_at = λ a. none };
  publish = some (λ u a m. (0, u + 1));
  publish_serialized = some (λ u a m. (0, u + 1));
  take_with_info = some deliver;
  send_request = some request;
  take_response = some deliver_rpc;
  take_request = some deliver_rpc;
  send_response = some (λ u a null n m. (0, u + 1));
}

abbrev pub start : World ℕ
start = record {
  outside = 0;
  thread = new_thread;
  health = record {
    state = record { enabled = true; consecutive_failures = 0; failure_threshold = 10 };
    metrics = record { traces_emitted = 0; traces_dropped = 0; auto_disabled = false };
  };
  events = empty_queue default_trace_queue_size blank_event;
  changes = empty_queue context_change_queue_size blank_change;
  publishers = [];
  subscriptions = [];
  clients = [];
  services = [];
  pending_requests = [];
}

abbrev pub some_context : TraceContext
some_context = record { trace_id = bytes "ab"; span_id = bytes "cd"; parent_span_id = [] }

-- The same with a thread that is in a trace.
abbrev pub in_trace : World ℕ
in_trace = record start { thread = record new_thread { context = some_context } }

abbrev pub chatter : Publisher
chatter = record { address = 40; topic_name = bytes "/chatter" }

abbrev pub listener : Subscription
listener = record { address = 50; topic_name = bytes "/chatter" }
