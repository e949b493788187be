-- ===== src/Diagnostics/Thread.antt =====
-- `diagnostics_thread_func`. Times are nanoseconds of the steady clock, which does not wrap here.
use rmw_robotops.Base.{
  ℕ, ◌+◌, ◌*◌, ◌^◌, ◌||◌, Option, none, some, List, [], ◌∷◌, leb, ◌==◌, if◌then◌else◌,
}
use rmw_robotops.World.{World}
use rmw_robotops.Diagnostics.{ClockSyncMethods, ClockSyncInfo, Floats}
use rmw_robotops.Diagnostics.Clock.{ClockSources, detect_clock_sync}
use rmw_robotops.Diagnostics.Report.{
  DiagnosticsReport, Surroundings, ReportState, populate_diagnostics_report,
}

-- The interval is an `int32_t`, given by its bit pattern.
unfoldable pub interval_ns : ℕ → ℕ
interval_ns interval_secs =
    let secs = if (interval_secs == 0) || leb (2 ^ 31) interval_secs then 10 else interval_secs in
    secs * 1000000000

abbrev pub clock_check_ns : ℕ
clock_check_ns = 60 * 1000000000

-- The local variables of the thread.
pub record Timer : Type 0 where
  pub next_publish_time : ℕ
  pub next_clock_check_time : ℕ
  pub cached_clock_info : ClockSyncInfo

-- What one round reads: the clock at its start, and what a check of the clock and a report would find.
pub record Round : Type 0 where
  pub now : ℕ
  pub sources : ClockSources
  pub surroundings : Surroundings

module _ {U : Type 0} where
  -- `publish` is the call of the middleware on the publisher, `none` while either is missing.
  unfoldable pub send_report :
      Option (DiagnosticsReport → U → U) → Option DiagnosticsReport → World U → World U
  send_report publish none w = w
  send_report none (some report) w = w
  send_report (some send) (some report) w = record w { outside = send report w.outside }

module _ {F : Type 0} (floats : Floats F) (k : ClockSyncMethods) (interval : ℕ) where
  unfoldable pub start_timer : ℕ → ClockSources → Timer
  start_timer now sources = record {
    next_publish_time = now;
    next_clock_check_time = now;
    cached_clock_info = detect_clock_sync floats k sources;
  }

  unfoldable pub check_clock : Round → Timer → Timer
  check_clock r t =
      if leb t.next_clock_check_time r.now
      then record t {
        next_clock_check_time = r.now + clock_check_ns;
        cached_clock_info = detect_clock_sync floats k r.sources;
      }
      else t

  module _ {U : Type 0} where
    -- One round of the loop, with the report it hands over for publication.
    unfoldable pub diagnostics_round :
        Round
        → Timer
        → ReportState
        → World U
        → Option DiagnosticsReport × Timer × ReportState × World U
    diagnostics_round r t s w =
        let checked = check_clock r t in
        let (report, s', w') =
          populate_diagnostics_report r.surroundings checked.cached_clock_info s w in
        if leb checked.next_publish_time r.now
        then (some report, record checked { next_publish_time = r.now + interval }, s', w')
        else (none, checked, s, w)

    -- The loop, for the rounds in which the flag is found set.
    unfoldable pub diagnostics_thread_func :
        Option (DiagnosticsReport → U → U)
        → List Round
        → Timer
        → ReportState
        → World U
        → Timer × ReportState × World U
    diagnostics_thread_func publish [] t s w = (t, s, w)
    diagnostics_thread_func publish (r ∷ rs) t s w =
        let (report, t', s', w') = diagnostics_round r t s w in
        diagnostics_thread_func publish rs t' s' (send_report publish report w')
