-- ===== src/Tests/Sessions.antt =====
-- The theorem on sequences of calls, for a thread in a trace that takes, publishes and sends.
use rmw_robotops.Base.{false, List, [], ◌∷◌, arith, length-replicate}
use rmw_robotops.Tests.{constants, readings, middleware, in_trace, chatter, listener}
use rmw_robotops.Context.{empty_context}
use rmw_robotops.Events.{blank_event, blank_change}
use rmw_robotops.World.{Readings, default_trace_queue_size, context_change_queue_size}
use rmw_robotops.World.Sound.{IsSound}
use rmw_robotops.Queue.Valid.{empty_queue-IsValid}
use rmw_robotops.Session.{Call, take_message, publish, send_request, session, session-IsSound}

in_trace-IsSound : IsSound in_trace
in_trace-IsSound = record {
  events = empty_queue-IsValid default_trace_queue_size blank_event (omega arith);
  changes = empty_queue-IsValid context_change_queue_size blank_change (omega arith);
  pending = record { slots = length-replicate 16 empty_context; within = omega arith };
}

abbrev calls : List (Readings × Call)
calls =
    (readings, take_message listener 8 false)
    ∷ (readings, publish chatter 9)
    ∷ (readings, send_request 60 10 false)
    ∷ []

session-IsSound_example : IsSound (session constants middleware calls in_trace)
session-IsSound_example = session-IsSound constants middleware calls in_trace in_trace-IsSound
