-- ===== src/Diagnostics/Clock.antt =====
-- The detection of clock synchronisation. The output of a command is `none` if it cannot be started.
use rmw_robotops.Base.{
  ℕ, zero, suc, ◌-◌, ◌%◌, ◌^◌, Bool, true, ◌||◌, Option, none, some, List, [], ◌∷◌, ltb, leb, ◌==◌,
  if◌then◌else◌, drop,
}
use rmw_robotops.Text.{Text}
use rmw_robotops.Topic.{bytes}
use rmw_robotops.Number.{Scan, is_digit, is_space, scan}
use rmw_robotops.Lines.{fgets_lines, strstr, contains, skip_until, back_while}
use rmw_robotops.Diagnostics.{ClockSyncMethods, ClockSyncInfo, Floats}

-- `atoll` saturates.
unfoldable pub signed_value : Scan → ℕ
signed_value s =
    if s.negative
    then (if ltb (2 ^ 63) s.magnitude then 2 ^ 63 else (2 ^ 64 - s.magnitude) % 2 ^ 64)
    else (if leb (2 ^ 63) s.magnitude then 2 ^ 63 - 1 else s.magnitude)

unfoldable pub atoll : Text → ℕ
atoll text = signed_value (scan text)

-- `std::abs(skew) < 1000000000LL`, for the pattern of the skew; the least number is its own pattern's
-- absolute value in hardware, which is negative.
unfoldable pub below_one_second : ℕ → Bool
below_one_second skew =
    if ltb skew (2 ^ 63)
    then ltb skew 1000000000
    else ltb (2 ^ 64 - skew) 1000000000 || (skew == 2 ^ 63)

abbrev pub line_size : ℕ
line_size = 256

abbrev pub is_number_start : ℕ → Bool
is_number_start c = is_digit c || (c == b'-')

-- The loop of `check_ptp4l` over the lines.
unfoldable pub ptp_offset : List Text → Option ℕ
ptp_offset [] = none
ptp_offset (line ∷ lines) =
    let later = ptp_offset lines in
    let number = skip_until is_number_start line in
    if contains line (bytes "offsetFromMaster")
    then elim number [ [] ↦ later | c ∷ cs ↦ some (atoll (c ∷ cs)) ]
    else later

module _ (k : ClockSyncMethods) where
  unfoldable pub check_ptp4l : Option Text → Option ClockSyncInfo
  check_ptp4l none = none
  check_ptp4l (some output) = elim (ptp_offset (fgets_lines line_size output)) [
    | none ↦ none
    | some offset_ns ↦ some (record {
      method = k.ptp;
      estimated_skew_ns = offset_ns;
      skew_uncertainty_ns = 1000;
      acceptable = below_one_second offset_ns;
    })
  ]

  unfoldable pub check_timesyncd : Bool → Option ClockSyncInfo
  check_timesyncd synchronized =
      if synchronized
      then some (record {
        method = k.ntp;
        estimated_skew_ns = 0;
        skew_uncertainty_ns = 100000000;
        acceptable = true;
      })
      else none

abbrev pub is_number_byte : ℕ → Bool
is_number_byte c = is_digit c || (c == b'.') || (c == b'-')

-- Where `atof` starts to read, for "seconds" at index `seconds`. At index 0 the scan starts in front
-- of the line, and ends there.
unfoldable pub number_index : Text → ℕ → ℕ
number_index line zero = zero
number_index line (suc last) =
    let end = back_while is_space line last in suc (back_while is_number_byte line end)

module _ {F : Type 0} (floats : Floats F) where
  unfoldable pub seconds_before : Text → Option F
  seconds_before line = elim (strstr line (bytes "seconds")) [
    | none ↦ none
    | some i ↦ some (floats.atof (drop (number_index line i) line))
  ]

  -- The variables of the loop of `parse_chrony_tracking`; the offset is there once it was found.
  pub record Tracking : Type 0 where
    pub offset_seconds : Option F
    pub rms_offset : F

  -- One round of the loop.
  unfoldable pub read_tracking : Text → Tracking → Tracking
  read_tracking line t =
      let found = seconds_before line in
      record {
        offset_seconds =
            if contains line (bytes "System time")
            then elim found [ none ↦ t.offset_seconds | some x ↦ some x ]
            else t.offset_seconds;
        rms_offset =
            if contains line (bytes "RMS offset")
            then elim found [ none ↦ t.rms_offset | some x ↦ x ]
            else t.rms_offset;
      }

  unfoldable pub read_trackings : List Text → Tracking → Tracking
  read_trackings [] t = t
  read_trackings (line ∷ lines) t = read_trackings lines (read_tracking line t)

  unfoldable pub parse_chrony_tracking : ClockSyncMethods → Option Text → Option ClockSyncInfo
  parse_chrony_tracking k none = none
  parse_chrony_tracking k (some output) =
      let start : Tracking = record { offset_seconds = none; rms_offset = floats.zero_seconds } in
      let t = read_trackings (fgets_lines line_size output) start in
      elim (t.offset_seconds) [
        | none ↦ none
        | some x ↦ some (record {
          method = k.ntp;
          estimated_skew_ns = floats.to_int64_ns x;
          skew_uncertainty_ns = floats.to_uint64_ns t.rms_offset;
          acceptable = below_one_second (floats.to_int64_ns x);
        })
      ]

-- What the three checks find: the outputs of `pmc` and `chronyc`, and whether the file of
-- systemd-timesyncd is there.
pub record ClockSources : Type 0 where
  pub pmc : Option Text
  pub chronyc : Option Text
  pub synchronized : Bool

module _ {F : Type 0} (floats : Floats F) (k : ClockSyncMethods) where
  unfoldable pub detect_clock_sync : ClockSources → ClockSyncInfo
  detect_clock_sync sources = elim (check_ptp4l k sources.pmc) [
    | some info ↦ info
    | none ↦ elim (parse_chrony_tracking floats k sources.chronyc) [
      | some info ↦ info
      | none ↦ elim (check_timesyncd k sources.synchronized) [
        | some info ↦ info
        | none ↦ record {
          method = k.none_method;
          estimated_skew_ns = 0;
          skew_uncertainty_ns = 0;
          acceptable = true;
        }
      ]
    ]
  ]
