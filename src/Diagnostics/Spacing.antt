-- ===== src/Diagnostics/Spacing.antt =====
-- When the thread of the diagnostics reports.
use rmw_robotops.Base.{
  ℕ, ◌+◌, ◌*◌, ◌^◌, ◌≤◌, ◌<◌, ◌≡◌, refl, Option, none, some, List, [], ◌∷◌, arith,
}
use rmw_robotops.World.{World}
use rmw_robotops.Diagnostics.{ClockSyncMethods, Floats}
use rmw_robotops.Diagnostics.Report.{DiagnosticsReport, ReportState}
use rmw_robotops.Diagnostics.Thread.{
  Timer, Round, interval_ns, check_clock, diagnostics_round, send_report, diagnostics_thread_func,
}

-- Never two reports closer than the interval: each time is at or past `due`, which it moves on.
pub Spaced : ℕ → ℕ → List ℕ → Type 0
Spaced interval due [] = Unit
Spaced interval due (x ∷ xs) = (due ≤ x) × Spaced interval (x + interval) xs

-- When the next report is due after reports at these times.
pub next_due : ℕ → ℕ → List ℕ → ℕ
next_due interval due [] = due
next_due interval due (x ∷ xs) = next_due interval (x + interval) xs

-- The time of the last round.
pub last_now : Round → List Round → ℕ
last_now r [] = r.now
last_now r (x ∷ xs) = last_now x xs

-- Every interval in use is between one second and `2 ^ 31 - 1` seconds.
interval_range :
    (secs : ℕ) → (1000000000 ≤ interval_ns secs) × (interval_ns secs < 2 ^ 31 * 1000000000)
unfolding interval_ns
interval_range secs = ground arith

module _ {F : Type 0} (floats : Floats F) (k : ClockSyncMethods) (secs : ℕ) {U : Type 0}
    (publish : Option (DiagnosticsReport → U → U)) where
  -- The clock readings of the rounds that report.
  pub report_times : List Round → Timer → ReportState → World U → List ℕ
  report_times [] t s w = []
  report_times (r ∷ rs) t s w =
      let (report, t', s', w') = diagnostics_round floats k (interval_ns secs) r t s w in
      let later = report_times rs t' s' (send_report publish report w') in
      elim report [ none ↦ later | some sent ↦ r.now ∷ later ]

  report_times-IsSpaced :
      (rs : List Round) (t : Timer) (s : ReportState) (w : World U)
      → Spaced (interval_ns secs) t.next_publish_time (report_times rs t s w)
  unfolding report_times Spaced diagnostics_round check_clock
  report_times-IsSpaced [] t s w = tt
  report_times-IsSpaced (r ∷ rs) t s w =
      let (report, t', s', w') = diagnostics_round floats k (interval_ns secs) r t s w in
      ground (arith, report_times-IsSpaced rs t' s' (send_report publish report w'))

  final_due :
      (rs : List Round) (t : Timer) (s : ReportState) (w : World U)
      → (diagnostics_thread_func floats k (interval_ns secs) publish rs t s w).0.next_publish_time
        ≡ next_due (interval_ns secs) t.next_publish_time (report_times rs t s w)
  unfolding report_times next_due diagnostics_round check_clock diagnostics_thread_func
  final_due [] t s w = refl
  final_due (r ∷ rs) t s w =
      let (report, t', s', w') = diagnostics_round floats k (interval_ns secs) r t s w in
      ground (arith, final_due rs t' s' (send_report publish report w'))

  last_round :
      (r : Round) (rs : List Round) (t : Timer) (s : ReportState) (w : World U)
      → last_now r rs
        < (diagnostics_thread_func floats k
            (interval_ns secs)
            publish
            (r ∷ rs)
            t
            s
            w).0.next_publish_time
  unfolding last_now diagnostics_round check_clock diagnostics_thread_func
  last_round r [] t s w = ground (arith, interval_range secs)
  last_round r (x ∷ xs) t s w =
      let (report, t', s', w') = diagnostics_round floats k (interval_ns secs) r t s w in
      last_round x xs t' s' (send_report publish report w')

  -- Whatever the rounds of the thread read, no two reports are closer than the interval, none
  -- comes before the first is due, and none stays overdue: at the end of the last round the clock reads
  -- less than an interval after the last report, or less than when the first is due if there is none.
  pub report_times_lem :
      (r : Round) (rs : List Round) (t : Timer) (s : ReportState) (w : World U)
      → let times = report_times (r ∷ rs) t s w in
        Spaced (interval_ns secs) t.next_publish_time times
        × (last_now r rs < next_due (interval_ns secs) t.next_publish_time times)
  report_times_lem r rs t s w = (
    report_times-IsSpaced (r ∷ rs) t s w,
    rw (← final_due (r ∷ rs) t s w) (last_round r rs t s w),
  )
