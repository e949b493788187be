-- ===== src/State/Switch.antt =====
-- When the tracer switches itself off.
use rmw_robotops.Base.{
  ℕ, zero, suc, ◌^◌, ◌<◌, ◌≡◌, refl, ◌∙◌, Bool, false, List, [], ◌∷◌, arith, ltb, not, ◌&&◌,
  if◌then◌else◌,
}
use rmw_robotops.State.{
  Health, is_tracing_enabled, record_trace_failure, record_trace_success, increment_traces_emitted,
  increment_traces_dropped,
}

-- Every call that the rest of the program makes on the state.
pub data Call : Type 0 where
  check fail succeed emit drop : Call

pub apply_call : Call → Health → Health
apply_call check h = record h { state = (is_tracing_enabled h.state).1 }
apply_call fail h = record_trace_failure h
apply_call succeed h = record_trace_success h
apply_call emit h = increment_traces_emitted h
apply_call drop h = increment_traces_dropped h

pub apply_calls : List Call → Health → Health
apply_calls [] h = h
apply_calls (c ∷ cs) h = apply_calls cs (apply_call c h)

apply_call_disabled :
    (c : Call) (h : Health) → h.state.enabled ≡ false → (apply_call c h).state.enabled ≡ false
unfolding apply_call is_tracing_enabled record_trace_failure record_trace_success
    increment_traces_emitted increment_traces_dropped
apply_call_disabled check h e = ground arith
apply_call_disabled fail h e = ground arith
apply_call_disabled succeed h e = e
apply_call_disabled emit h e = e
apply_call_disabled drop h e = e

apply_calls_disabled :
    (cs : List Call) (h : Health)
    → h.state.enabled ≡ false
    → (apply_calls cs h).state.enabled ≡ false
unfolding apply_calls
apply_calls_disabled [] h e = e
apply_calls_disabled (c ∷ cs) h e =
    apply_calls_disabled cs (apply_call c h) (apply_call_disabled c h e)

-- Once off, the tracer stays off: after any checks, failures, successes and counts the check says no,
-- and changes nothing.
pub disabled_forever :
    (cs : List Call) (h : Health)
    → h.state.enabled ≡ false
    → let s = (apply_calls cs h).state in is_tracing_enabled s ≡ (false, s)
unfolding is_tracing_enabled
disabled_forever cs h e = rw (apply_calls_disabled cs h e)

-- `n` failures in a row.
pub failures : ℕ → Health → Health
failures zero h = h
failures (suc n) h = record_trace_failure (failures n h)

failures_state :
    (n : ℕ) (h : Health)
    → n < 2 ^ 32
    → h.state.consecutive_failures ≡ 0
    → let s = (failures n h).state in
      (s.consecutive_failures ≡ n)
      × (s.failure_threshold ≡ h.state.failure_threshold)
      × (s.enabled ≡ (h.state.enabled && not (ltb h.state.failure_threshold n)))
unfolding failures record_trace_failure
failures_state zero h lt e = ground arith
failures_state (suc n) h lt e = ground (arith, failures_state n h (omega arith) e)

-- After a success and fewer than `2 ^ 32` failures in a row, the check passes just if the tracer was
-- on and the failures are fewer than the threshold: at the threshold itself it already fails.
pub failures_check :
    (n : ℕ) (h : Health)
    → n < 2 ^ 32
    → (is_tracing_enabled (failures n (record_trace_success h)).state).0
      ≡ (h.state.enabled && ltb n h.state.failure_threshold)
unfolding is_tracing_enabled record_trace_success
failures_check n h lt = ground (arith, failures_state n (record_trace_success h) lt refl)

-- A call of the middleware as its handlers make it: check, and only if the check passes record how
-- the events fared.
pub traced_call : Bool → Health → Health
traced_call ok h =
    let (on, s) = is_tracing_enabled h.state in
    let checked = record h { state = s } in
    if on
    then (if ok then record_trace_success checked else record_trace_failure checked)
    else checked

pub traced_calls : List Bool → Health → Health
traced_calls [] h = h
traced_calls (ok ∷ oks) h = traced_calls oks (traced_call ok h)

traced_call_flag :
    (ok : Bool) (h : Health) → (traced_call ok h).metrics.auto_disabled ≡ h.metrics.auto_disabled
unfolding traced_call is_tracing_enabled record_trace_failure record_trace_success
traced_call_flag ok h = ground arith

-- Calls that check first and record one success or failure if the check passes never raise the flag
-- for the diagnostics, however many of them fail in a row: it is after them what it was before.
pub auto_disabled_never :
    (oks : List Bool) (h : Health)
    → (traced_calls oks h).metrics.auto_disabled ≡ h.metrics.auto_disabled
unfolding traced_calls
auto_disabled_never [] h = refl
auto_disabled_never (ok ∷ oks) h =
    auto_disabled_never oks (traced_call ok h) ∙ traced_call_flag ok h
