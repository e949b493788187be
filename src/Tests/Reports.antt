-- ===== src/Tests/Reports.antt =====
-- The theorems on the diagnostics, at small files and outputs.
use rmw_robotops.Base.{
  ℕ, suc, ◌-◌, ◌*◌, ◌%◌, ◌&&◌, ◌==◌, not, Bool, false, length, ◌^◌, ◌<◌, ◌≡◌, ◌≢◌, refl, true,
  Option, none, some, List, [], ◌∷◌, ◌++◌, All, arith,
}
use rmw_robotops.Text.{Text}
use rmw_robotops.Topic.{bytes}
use rmw_robotops.Number.Parse.{IsDigit}
use rmw_robotops.Lines.{newline, starts_with, strstr, contains}
use rmw_robotops.Lines.Scans.{IsLine, IsToken, join, concat, terminated}
use rmw_robotops.Diagnostics.Clock.{detect_clock_sync}
use rmw_robotops.Diagnostics.Report.{DiagnosticsReport, Surroundings, populate_diagnostics_report}
use rmw_robotops.Diagnostics.Thread.{Round, interval_ns}
use rmw_robotops.Diagnostics.Ptp.{IsOtherLine, detect_clock_sync_lem}
use rmw_robotops.Diagnostics.Proc.{strtoull, behind_command, cpu_times, compute_memory_usage}
use rmw_robotops.Diagnostics.Fields.{
  StatFields, field_list, cpu_times_lem, IsOther, rss_line, compute_memory_usage_lem,
}
use rmw_robotops.Diagnostics.Load.{queue_after, held_after, populate_diagnostics_report_lem}
use rmw_robotops.Queue.{try_push}
use rmw_robotops.Queue.Fifo.{Op, push, pop}
use rmw_robotops.Queue.Refine.{contents}
use rmw_robotops.Queue.Valid.{empty_queue-IsValid}
use rmw_robotops.Events.{TraceEvent, blank_event}
use rmw_robotops.World.{default_trace_queue_size}
use rmw_robotops.Diagnostics.Spacing.{Spaced, next_due, last_now, report_times, report_times_lem}
use rmw_robotops.Tests.{start}
use rmw_robotops.Tests.Tally.{floats, methods, no_sources, timer, report_state}

abbrev surroundings : Surroundings
surroundings = record {
  wall_ns = 1500000000;
  steady_ns = 0;
  host = none;
  status = none;
  stat = none;
  event_size = 2000;
  rmw = bytes "rmw_fastrtps_cpp";
}

abbrev round_at : ℕ → Round
round_at now = record { now = now; sources = no_sources; surroundings = surroundings }

abbrev later_rounds : List Round
later_rounds = round_at 5000000000 ∷ round_at 10000000000 ∷ []

abbrev count_report : Option (DiagnosticsReport → ℕ → ℕ)
count_report = some (λ report sent. sent)

report_times_lem_example :
    let times =
      report_times floats methods 10 count_report
        (round_at 0 ∷ later_rounds)
        timer
        report_state
        start in
    Spaced (interval_ns 10) 0 times
    × (last_now (round_at 0) later_rounds < next_due (interval_ns 10) 0 times)
report_times_lem_example =
    report_times_lem floats methods 10 count_report (round_at 0) later_rounds timer report_state
      start

one_line : Text → Bool
one_line [] = true
one_line (c ∷ cs) = not (c == newline) && one_line cs

one_line-All : (text : Text) → one_line text ≡ true → All (λ c. c ≢ newline) text
unfolding one_line
one_line-All [] h = tt
one_line-All (c ∷ cs) h = ((λ e. absurd (ground (arith, e))), one_line-All cs (ground arith))

abbrev offset_25 : Text
offset_25 = bytes "  offsetFromMaster  -25.0"

offset_25-IsLine : All (IsLine 256) (bytes "sending" ∷ offset_25 ∷ [])
unfolding one_line
offset_25-IsLine = (
  record { plain = one_line-All (bytes "sending") refl; short = omega arith },
  (record { plain = one_line-All offset_25 refl; short = omega arith }, tt),
)

sending-IsOtherLine : All IsOtherLine (bytes "sending" ∷ [])
unfolding terminated contains strstr starts_with
sending-IsOtherLine = (refl, tt)

detect_clock_sync_lem_example :
    detect_clock_sync floats methods (record {
      pmc = some (concat (bytes "sending" ∷ offset_25 ∷ []));
      chronyc = none;
      synchronized = true;
    })
    ≡ record {
      method = methods.ptp;
      estimated_skew_ns = 2 ^ 64 - 25;
      skew_uncertainty_ns = 1000;
      acceptable = true;
    }
detect_clock_sync_lem_example =
    detect_clock_sync_lem (bytes "sending" ∷ []) [] (bytes "  ") (bytes "  ") true b'2' (b'5' ∷ [])
      b'.' (b'0' ∷ []) offset_25-IsLine sending-IsOtherLine (refl, (refl, tt)) (refl, (refl, tt))
      ((omega arith, omega arith), ((omega arith, omega arith), tt)) refl (omega arith) floats
      methods none true

abbrev digit_field : Text
digit_field = b'7' ∷ []

abbrev stat_fields : StatFields
stat_fields = record {
  state = b'R' ∷ [];
  ppid = digit_field;
  pgrp = digit_field;
  session = digit_field;
  tty_nr = digit_field;
  tpgid = digit_field;
  flags = digit_field;
  minflt = digit_field;
  cminflt = digit_field;
  majflt = digit_field;
  cmajflt = digit_field;
  utime = b'9' ∷ [];
}

no_bracket : All (λ (c : ℕ). c ≢ b')') (b'1' ∷ b'(' ∷ [])
no_bracket = (λ e. absurd (omega (arith, e)), (λ e. absurd (omega (arith, e)), tt))

digit_IsToken : IsToken digit_field
digit_IsToken = (λ e. absurd (omega (arith, e)), tt)

stat_fields-IsToken : All IsToken (field_list stat_fields)
unfolding field_list
stat_fields-IsToken =
    let d = digit_IsToken in
    (
      (λ e. absurd (omega (arith, e)), tt),
      (d, (d, (d, (d, (d, (d, (d, (d, (d, (d, ((λ e. absurd (omega (arith, e)), tt), tt))))))))))),
    )

cpu_times_lem_example :
    let fields = join (field_list stat_fields) (b'4' ∷ []) in
    (behind_command ((b'1' ∷ b'(' ∷ []) ++ (b')' ∷ 32 ∷ fields)) ≡ some fields)
    × (cpu_times fields ≡ record { utime = strtoull digit_field; stime = strtoull (b'9' ∷ []) })
cpu_times_lem_example =
    cpu_times_lem (b'1' ∷ b'(' ∷ []) stat_fields (b'4' ∷ []) no_bracket stat_fields-IsToken

status-IsLine : All (IsLine 256) ((b'N' ∷ []) ∷ rss_line (9 ∷ 32 ∷ []) b'4' (b'2' ∷ []) ∷ [])
unfolding one_line
status-IsLine = (
  record { plain = one_line-All (b'N' ∷ []) refl; short = omega arith },
  (
    record {
      plain = one_line-All (rss_line (9 ∷ 32 ∷ []) b'4' (b'2' ∷ [])) refl;
      short = omega arith;
    },
    tt,
  ),
)

status-IsOther : All IsOther ((b'N' ∷ []) ∷ [])
unfolding starts_with terminated
status-IsOther = (refl, tt)

digits : All IsDigit (b'4' ∷ b'2' ∷ [])
digits = ((omega arith, omega arith), ((omega arith, omega arith), tt))

compute_memory_usage_lem_example :
    compute_memory_usage 2000
      (some (concat ((b'N' ∷ []) ∷ rss_line (9 ∷ 32 ∷ []) b'4' (b'2' ∷ []) ∷ [])))
    ≡ (42 * 1024) % 2 ^ 64
compute_memory_usage_lem_example =
    compute_memory_usage_lem 2000 ((b'N' ∷ []) ∷ []) (9 ∷ 32 ∷ []) b'4' (b'2' ∷ []) [] status-IsLine
      status-IsOther (refl, (refl, tt)) digits (omega arith)

abbrev never : ℕ → Bool
never i = false

abbrev busy : List (Op TraceEvent)
busy = push blank_event ∷ push blank_event ∷ pop ∷ []

populate_diagnostics_report_lem_example :
    let q = queue_after default_trace_queue_size blank_event never start.events busy in
    let held = held_after 1024 (contents default_trace_queue_size blank_event start.events) busy in
    let report =
      (populate_diagnostics_report surroundings timer.cached_clock_info report_state
        (record start { events = q })).0 in
    (report.queue_utilization ≡ (length held, 1024))
    × (length held < 1024)
    × ((try_push default_trace_queue_size blank_event never q blank_event).0
        ≡ not (suc (report.queue_utilization.0) == report.queue_utilization.1))
populate_diagnostics_report_lem_example =
    populate_diagnostics_report_lem surroundings timer.cached_clock_info report_state start never 0
      busy blank_event (empty_queue-IsValid default_trace_queue_size blank_event (omega arith))
      (omega arith) refl
