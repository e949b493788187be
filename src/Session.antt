-- ===== src/Session.antt =====
-- Sequences of the intercepted calls of one thread, each with what it reads.
use rmw_robotops.Base.{ℕ, Bool, List, [], ◌∷◌}
use rmw_robotops.Publish.{Publisher, rmw_publish}
use rmw_robotops.Publish.Sound.{rmw_publish-IsSound}
use rmw_robotops.Take.{Subscription, rmw_take_with_info}
use rmw_robotops.Take.Sound.{rmw_take_with_info-IsSound}
use rmw_robotops.Client.{rmw_send_request, rmw_take_response}
use rmw_robotops.Client.Sound.{rmw_send_request-IsSound, rmw_take_response-IsSound}
use rmw_robotops.Service.{rmw_take_request, rmw_send_response}
use rmw_robotops.Service.Sound.{rmw_take_request-IsSound, rmw_send_response-IsSound}
use rmw_robotops.World.{World, Readings, Constants, Underlying}
use rmw_robotops.World.Sound.{IsSound}

pub data Call : Type 0 where
  publish : Publisher → ℕ → Call
  take_message : Subscription → ℕ → Bool → Call
  send_request : ℕ → ℕ → Bool → Call
  take_response : ℕ → ℕ → Bool → Call
  take_request : ℕ → ℕ → Bool → Call
  send_response : ℕ → ℕ → Bool → ℕ → Call

module _ {U : Type 0} (k : Constants) (underlying : Underlying U) where
  pub after_call : Readings → Call → World U → World U
  after_call r (publish p m) w = (rmw_publish k underlying r p m w).1
  after_call r (take_message s m null) w = (rmw_take_with_info k underlying r s m null w).2
  after_call r (send_request c m null) w = (rmw_send_request k underlying r c m null w).2
  after_call r (take_response c m null) w = (rmw_take_response k underlying r c m null w).2
  after_call r (take_request s m null) w = (rmw_take_request k underlying r s m null w).2
  after_call r (send_response s m null n) w = (rmw_send_response k underlying r s m null n w).1

  pub session : List (Readings × Call) → World U → World U
  session [] w = w
  session ((r, c) ∷ cs) w = session cs (after_call r c w)

  after_call-IsSound :
      (r : Readings) (c : Call) (w : World U) → IsSound w → IsSound (after_call r c w)
  unfolding after_call
  after_call-IsSound r (publish p m) w s = rmw_publish-IsSound k underlying r p m w s
  after_call-IsSound r (take_message t m null) w s =
      rmw_take_with_info-IsSound k underlying r t m null w s
  after_call-IsSound r (send_request c m null) w s =
      rmw_send_request-IsSound k underlying r c m null w s
  after_call-IsSound r (take_response c m null) w s =
      rmw_take_response-IsSound k underlying r c m null w s
  after_call-IsSound r (take_request t m null) w s =
      rmw_take_request-IsSound k underlying r t m null w s
  after_call-IsSound r (send_response t m null n) w s =
      rmw_send_response-IsSound k underlying r t m null n w s

  -- After any sequence of publishes, takes, requests and responses, whatever the middleware returns and
  -- whatever each call reads: the rings of trace events and of context changes are valid, and the
  -- buffer of pending contexts is within its bounds, if they were before.
  pub session-IsSound :
      (cs : List (Readings × Call)) (w : World U) → IsSound w → IsSound (session cs w)
  unfolding session
  session-IsSound [] w s = s
  session-IsSound ((r, c) ∷ cs) w s =
      session-IsSound cs (after_call r c w) (after_call-IsSound r c w s)
