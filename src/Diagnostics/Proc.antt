-- ===== src/Diagnostics/Proc.antt =====
-- Memory and processor time, read from /proc. A file is `none` if it does not open.
use rmw_robotops.Base.{
  ℕ, ◌+◌, ◌-◌, ◌*◌, ◌%◌, ◌^◌, Bool, false, Option, none, some, List, [], ◌∷◌, ltb, ◌==◌,
  if◌then◌else◌, drop,
}
use rmw_robotops.Text.{Text}
use rmw_robotops.Topic.{bytes}
use rmw_robotops.Number.{is_digit, scan, unsigned_value}
use rmw_robotops.World.{default_trace_queue_size}
use rmw_robotops.Lines.{fgets_lines, starts_with, skip_until, tokens}

-- `strtoull(text, nullptr, 10)`.
unfoldable pub strtoull : Text → ℕ
strtoull text = unsigned_value (scan text)

unfoldable pub rss_kb : List Text → ℕ
rss_kb [] = 0
rss_kb (line ∷ lines) =
    let later = rss_kb lines in
    if starts_with (bytes "VmRSS:") line
    then strtoull (skip_until is_digit (drop 6 line))
    else later

-- Of /proc/self/status; `event_size` is `sizeof(TraceEvent)`.
unfoldable pub compute_memory_usage : ℕ → Option Text → ℕ
compute_memory_usage event_size none = event_size * default_trace_queue_size + 20 * 1024 + 1024
compute_memory_usage event_size (some status) = (rss_kb (fgets_lines 256 status) * 1024) % 2 ^ 64

pub record CpuTimes : Type 0 where
  pub utime : ℕ
  pub stime : ℕ

-- The loop over the tokens behind the command, from the number `field` on.
unfoldable pub read_times : ℕ → List Text → CpuTimes → CpuTimes
read_times field [] times = times
read_times field (token ∷ rest) times =
    let here =
      if field == 13
      then record times { utime = strtoull token }
      else (if field == 14 then record times { stime = strtoull token } else times) in
    let later = read_times (field + 1) rest here in if ltb field 15 then later else times

-- `strchr(line, ')')` with the two bytes behind it skipped.
unfoldable pub behind_command : Text → Option Text
behind_command [] = none
behind_command (c ∷ cs) = if c == b')' then some (drop 2 (c ∷ cs)) else behind_command cs

-- The first line of the file of the thread in `char line[1024]`, `none` if there is none.
unfoldable pub first_line : Option Text → Option Text
first_line none = none
first_line (some stat) = elim (fgets_lines 1024 stat) [ [] ↦ none | line ∷ lines ↦ some line ]

unfoldable pub cpu_times : Text → CpuTimes
cpu_times fields = read_times 3 (tokens fields) (record { utime = 0; stime = 0 })

-- `last_cpu_time` and `last_cpu_check_time`.
pub record CpuState : Type 0 where
  pub last_cpu_time : ℕ
  pub last_cpu_check_time : ℕ

-- A positive `int64_t`, by its bit pattern.
abbrev pub is_positive : ℕ → Bool
is_positive pattern = if pattern == 0 then false else ltb pattern (2 ^ 63)

-- What the check returns: nothing to compute, or the two differences, which `min(100, 100 * cpu / wall)`
-- is computed from in floating point. `now_ns` is the steady clock.
unfoldable pub compute_cpu_percent : ℕ → Option Text → CpuState → Option (ℕ × ℕ) × CpuState
compute_cpu_percent now_ns stat s = elim (first_line stat) [
  | none ↦ (none, s)
  | some line ↦ elim (behind_command line) [
    | none ↦ (none, s)
    | some fields ↦
        (let times = cpu_times fields in
          let cpu_time_ns = ((times.utime + times.stime) % 2 ^ 64 * 10000000) % 2 ^ 64 in
          let delta_cpu = (cpu_time_ns + 2 ^ 64 - s.last_cpu_time) % 2 ^ 64 in
          let delta_wall = (now_ns + 2 ^ 64 - s.last_cpu_check_time) % 2 ^ 64 in
          let next : CpuState = record {
            last_cpu_time = cpu_time_ns;
            last_cpu_check_time = now_ns;
          } in
          if s.last_cpu_check_time == 0
          then (none, next)
          else (if is_positive delta_wall
              then (some (delta_cpu, delta_wall), next)
              else (none, next)))
  ]
]
