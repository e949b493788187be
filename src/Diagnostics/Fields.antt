-- ===== src/Diagnostics/Fields.antt =====
-- Which numbers of /proc the report shows.
use rmw_robotops.Base.{
  ℕ, ◌*◌, ◌%◌, ◌^◌, ◌<◌, ◌≡◌, ◌≢◌, refl, ap, ◌∙◌, false, some, List, [], ◌∷◌, ◌++◌, All, arith,
  append_assoc,
}
use rmw_robotops.Text.{Text}
use rmw_robotops.Topic.{bytes}
use rmw_robotops.Number.{is_digit, unsigned_value}
use rmw_robotops.Number.Parse.{IsDigit, decimal, digit_test, scan_digits-before}
use rmw_robotops.Lines.{newline, tokens, starts_with}
use rmw_robotops.Lines.Scans.{
  IsToken, IsLine, join, tokens-join, terminated, terminated_all, concat, fgets_lines-concat,
  terminated_all-append, skip_until-passes,
}
use rmw_robotops.Diagnostics.Proc.{
  CpuTimes, strtoull, behind_command, cpu_times, read_times, rss_kb, compute_memory_usage,
}

behind_command-passes :
    (front rest : Text)
    → All (λ c. c ≢ b')') front
    → behind_command (front ++ (b')' ∷ 32 ∷ rest)) ≡ some rest
unfolding behind_command
behind_command-passes [] rest h = refl
behind_command-passes (c ∷ cs) rest h = ground (arith, h.0, behind_command-passes cs rest h.1)

-- Fields 3 to 14 of the stat file of a thread, by their names in the manual of /proc.
pub record StatFields : Type 0 where
  pub state : Text
  pub ppid : Text
  pub pgrp : Text
  pub session : Text
  pub tty_nr : Text
  pub tpgid : Text
  pub flags : Text
  pub minflt : Text
  pub cminflt : Text
  pub majflt : Text
  pub cmajflt : Text
  pub utime : Text

unfoldable pub field_list : StatFields → List Text
field_list f =
    f.state ∷ f.ppid ∷ f.pgrp ∷ f.session ∷ f.tty_nr ∷ f.tpgid ∷ f.flags ∷ f.minflt ∷ f.cminflt
    ∷ f.majflt ∷ f.cmajflt ∷ f.utime ∷ []

read_times-end : (ts : List Text) (times : CpuTimes) → read_times 15 ts times ≡ times
unfolding read_times
read_times-end [] times = refl
read_times-end (t ∷ ts) times = refl

cpu_times-join :
    (f : StatFields) (rest : Text)
    → All IsToken (field_list f)
    → cpu_times (join (field_list f) rest)
      ≡ record { utime = strtoull f.cmajflt; stime = strtoull f.utime }
unfolding cpu_times field_list read_times
cpu_times-join f rest h = rw (tokens-join (field_list f) rest h) (read_times-end (tokens rest) _)

-- In a stat line of a thread whose command has no closing bracket, `utime` of the check is field 13,
-- which counts page faults of children, and `stime` is field 14, the user time; the system time in
-- field 15 is not read, whatever stands there.
pub cpu_times_lem :
    (front : Text) (f : StatFields) (rest : Text)
    → All (λ c. c ≢ b')') front
    → All IsToken (field_list f)
    → let fields = join (field_list f) rest in
      (behind_command (front ++ (b')' ∷ 32 ∷ fields)) ≡ some fields)
      × (cpu_times fields ≡ record { utime = strtoull f.cmajflt; stime = strtoull f.utime })
cpu_times_lem front f rest h g =
    (behind_command-passes front (join (field_list f) rest) h, cpu_times-join f rest g)

-- The line of the resident set size, in kB.
abbrev pub rss_line : Text → ℕ → Text → Text
rss_line blanks c cs = bytes "VmRSS:" ++ (blanks ++ ((c ∷ cs) ++ bytes " kB"))

abbrev pub IsOther : Text → Type 0
IsOther line = starts_with (bytes "VmRSS:") (terminated line) ≡ false

rss_kb-skips :
    (lines : List Text) (rest : List Text)
    → All IsOther lines
    → rss_kb (terminated_all lines ++ rest) ≡ rss_kb rest
unfolding rss_kb terminated_all
rss_kb-skips [] rest h = refl
rss_kb-skips (line ∷ lines) rest h = rw h.0 (rss_kb-skips lines rest h.1)

rss_kb-line :
    (blanks : Text) (c : ℕ) (cs : Text) (after : List Text)
    → All (λ d. is_digit d ≡ false) blanks
    → All IsDigit (c ∷ cs)
    → decimal 0 (c ∷ cs) < 2 ^ 64
    → rss_kb (terminated (rss_line blanks c cs) ∷ after) ≡ decimal 0 (c ∷ cs)
unfolding rss_kb starts_with terminated strtoull unsigned_value
rss_kb-line blanks c cs after h g fits =
    let unit = bytes " kB" in
    let end = newline ∷ [] in
    let flat =
      append_assoc blanks ((c ∷ cs) ++ unit) end
      ∙ ap (λ t. blanks ++ (c ∷ t)) (append_assoc cs unit end) in
    let start = skip_until-passes is_digit blanks c (cs ++ (unit ++ end)) h (digit_test c g.0) in
    rw (flat, start)
      (rw (scan_digits-before c cs 32 (b'k' ∷ b'B' ∷ newline ∷ []) g refl) (ground arith))

-- For a status file of lines that fit the buffer, one of which is that of the resident set size with
-- its number in plain digits of a value below `2 ^ 64` and no such line before it, the memory reported
-- is that number of kilobytes in bytes, modulo `2 ^ 64`.
pub compute_memory_usage_lem :
    (event_size : ℕ) (before : List Text) (blanks : Text) (c : ℕ) (cs : Text) (after : List Text)
    → All (IsLine 256) (before ++ (rss_line blanks c cs ∷ after))
    → All IsOther before
    → All (λ d. is_digit d ≡ false) blanks
    → All IsDigit (c ∷ cs)
    → decimal 0 (c ∷ cs) < 2 ^ 64
    → compute_memory_usage event_size (some (concat (before ++ (rss_line blanks c cs ∷ after))))
      ≡ (decimal 0 (c ∷ cs) * 1024) % 2 ^ 64
unfolding compute_memory_usage terminated_all
compute_memory_usage_lem event_size before blanks c cs after fit others h g fits =
    let line = rss_line blanks c cs in
    let read =
      fgets_lines-concat 256 (before ++ (line ∷ after)) fit
      ∙ terminated_all-append before (line ∷ after) in
    let found =
      rss_kb-skips before (terminated line ∷ terminated_all after) others
      ∙ rss_kb-line blanks c cs (terminated_all after) h g fits in
    ap (λ kb. (kb * 1024) % 2 ^ 64) (ap rss_kb read ∙ found)
