-- ===== src/Diagnostics/Ptp.antt =====
-- The offset that the check of ptp4l reads out of the output of `pmc`.
use rmw_robotops.Base.{
  ℕ, ◌-◌, ◌%◌, ◌^◌, ◌<◌, ◌≡◌, refl, ap, ◌∙◌, Bool, true, false, Option, some, List, [], ◌∷◌, ◌++◌,
  ltb, if◌then◌else◌, All, arith, append_assoc,
}
use rmw_robotops.Text.{Text}
use rmw_robotops.Topic.{bytes}
use rmw_robotops.Number.{is_digit}
use rmw_robotops.Number.Parse.{IsDigit, decimal, digit_test, scan_digits-before, scan_minus-before}
use rmw_robotops.Lines.{newline, contains, skip_until, fgets_lines}
use rmw_robotops.Lines.Scans.{
  terminated, terminated_all, concat, IsLine, fgets_lines-concat, terminated_all-append,
  contains-append, skip_until-misses, skip_until-passes,
}
use rmw_robotops.Diagnostics.{ClockSyncMethods, Floats}
use rmw_robotops.Diagnostics.Clock.{
  signed_value, atoll, below_one_second, is_number_start, ptp_offset, check_ptp4l,
  detect_clock_sync,
}

abbrev pub offset_word : Text
offset_word = bytes "offsetFromMaster"

-- A text behind its sign.
abbrev pub signed : Bool → Text → Text
signed true text = b'-' ∷ text
signed false text = text

-- A line with the word, and a number behind it: its digits, and from `stop` on its fraction and what
-- else follows.
abbrev pub offset_line : Text → Text → Bool → ℕ → Text → Text → Text
offset_line front gap negative c cs stop =
    front ++ (offset_word ++ (gap ++ signed negative ((c ∷ cs) ++ stop)))

-- The two's complement of `n` or of its negation in 64 bits.
abbrev pub int64 : Bool → ℕ → ℕ
int64 negative n = if negative then (2 ^ 64 - n) % 2 ^ 64 else n

signed-append :
    (negative : Bool) (xs ys : Text) → signed negative xs ++ ys ≡ signed negative (xs ++ ys)
signed-append true xs ys = refl
signed-append false xs ys = refl

terminated-offset_line :
    (front gap : Text) (negative : Bool) (c : ℕ) (cs : Text) (stop : ℕ) (tail : Text)
    → terminated (offset_line front gap negative c cs (stop ∷ tail))
      ≡ offset_line front gap negative c cs (stop ∷ (tail ++ newline ∷ []))
unfolding terminated
terminated-offset_line front gap negative c cs stop tail =
    let end = newline ∷ [] in
    append_assoc front (offset_word ++ (gap ++ signed negative ((c ∷ cs) ++ (stop ∷ tail)))) end
    ∙ ap (λ t. front ++ (offset_word ++ t))
        (append_assoc gap (signed negative ((c ∷ cs) ++ (stop ∷ tail))) end
          ∙ ap (λ t. gap ++ t)
              (signed-append negative ((c ∷ cs) ++ (stop ∷ tail)) end
                ∙ ap (λ t. signed negative (c ∷ t)) (append_assoc cs (stop ∷ tail) end)))

word_misses : All (λ d. is_number_start d ≡ false) offset_word
word_misses = (
  refl,
  (
    refl,
    (
      refl,
      (
        refl,
        (
          refl,
          (
            refl,
            (refl, (refl, (refl, (refl, (refl, (refl, (refl, (refl, (refl, (refl, tt)))))))))),
          ),
        ),
      ),
    ),
  ),
)

signed_start :
    (negative : Bool) (c : ℕ) (cs : Text)
    → IsDigit c
    → skip_until is_number_start (signed negative (c ∷ cs)) ≡ signed negative (c ∷ cs)
signed_start true c cs d = skip_until-passes is_number_start [] b'-' (c ∷ cs) tt refl
signed_start false c cs d = skip_until-passes is_number_start [] c cs tt (rw (digit_test c d) refl)

-- The scan for the number stops at its sign or its first digit.
number_start :
    (front gap : Text) (negative : Bool) (c : ℕ) (cs rest : Text)
    → All (λ d. is_number_start d ≡ false) front
    → All (λ d. is_number_start d ≡ false) gap
    → IsDigit c
    → skip_until is_number_start (offset_line front gap negative c cs rest)
      ≡ signed negative ((c ∷ cs) ++ rest)
number_start front gap negative c cs rest h g d =
    skip_until-misses is_number_start front _ h
    ∙ skip_until-misses is_number_start offset_word _ word_misses
    ∙ skip_until-misses is_number_start gap _ g
    ∙ signed_start negative c (cs ++ rest) d

atoll-signed :
    (negative : Bool) (c : ℕ) (cs : Text) (stop : ℕ) (rest : Text)
    → All IsDigit (c ∷ cs)
    → is_digit stop ≡ false
    → decimal 0 (c ∷ cs) < 2 ^ 63
    → atoll (signed negative ((c ∷ cs) ++ (stop ∷ rest))) ≡ int64 negative (decimal 0 (c ∷ cs))
unfolding atoll signed_value
atoll-signed true c cs stop rest h e fits = rw (scan_minus-before c cs stop rest h e) (ground arith)
atoll-signed false c cs stop rest h e fits =
    rw (scan_digits-before c cs stop rest h e) (ground arith)

below_one_second-int64 :
    (negative : Bool) (n : ℕ) → n < 2 ^ 63 → below_one_second (int64 negative n) ≡ ltb n 1000000000
unfolding below_one_second
below_one_second-int64 true n h = ground arith
below_one_second-int64 false n h = ground arith

-- The line does not have the word.
abbrev pub IsOtherLine : Text → Type 0
IsOtherLine line = contains (terminated line) offset_word ≡ false

ptp_offset-skips :
    (lines rest : List Text)
    → All IsOtherLine lines
    → ptp_offset (terminated_all lines ++ rest) ≡ ptp_offset rest
unfolding ptp_offset terminated_all
ptp_offset-skips [] rest h = refl
ptp_offset-skips (line ∷ lines) rest h = rw h.0 (ptp_offset-skips lines rest h.1)

ptp_offset-line :
    (line : Text) (d : ℕ) (ds : Text) (lines : List Text)
    → contains line offset_word ≡ true
    → skip_until is_number_start line ≡ d ∷ ds
    → ptp_offset (line ∷ lines) ≡ some (atoll (d ∷ ds))
unfolding ptp_offset
ptp_offset-line line d ds lines h e = rw (h, e) refl

ptp_offset-signed :
    (line : Text) (negative : Bool) (d : ℕ) (ds : Text) (lines : List Text)
    → contains line offset_word ≡ true
    → skip_until is_number_start line ≡ signed negative (d ∷ ds)
    → ptp_offset (line ∷ lines) ≡ some (atoll (signed negative (d ∷ ds)))
ptp_offset-signed line true d ds lines h e = ptp_offset-line line b'-' (d ∷ ds) lines h e
ptp_offset-signed line false d ds lines h e = ptp_offset-line line d ds lines h e

by_ptp :
    {F : Type 0} (floats : Floats F) (k : ClockSyncMethods) (output : Text) (chronyc : Option Text)
    (synchronized : Bool) (skew : ℕ)
    → ptp_offset (fgets_lines 256 output) ≡ some skew
    → detect_clock_sync floats k
        (record { pmc = some output; chronyc = chronyc; synchronized = synchronized })
      ≡ record {
        method = k.ptp;
        estimated_skew_ns = skew;
        skew_uncertainty_ns = 1000;
        acceptable = below_one_second skew;
      }
unfolding detect_clock_sync check_ptp4l
by_ptp floats k output chronyc synchronized skew e = ground (arith, e)

module _ (before after : List Text) (front gap : Text) (negative : Bool) (c : ℕ) (cs : Text)
    (stop : ℕ) (tail : Text)
    (fit : All (IsLine 256) (before ++ (offset_line front gap negative c cs (stop ∷ tail) ∷ after)))
    (others : All IsOtherLine before) (in_front : All (λ d. is_number_start d ≡ false) front)
    (between : All (λ d. is_number_start d ≡ false) gap) (digits : All IsDigit (c ∷ cs))
    (ends : is_digit stop ≡ false) (small : decimal 0 (c ∷ cs) < 2 ^ 63) where
  ptp_offset-found :
      ptp_offset (
        fgets_lines 256
          (concat (before ++ (offset_line front gap negative c cs (stop ∷ tail) ∷ after))))
      ≡ some (int64 negative (decimal 0 (c ∷ cs)))
  unfolding terminated_all
  ptp_offset-found =
      let line = offset_line front gap negative c cs (stop ∷ tail) in
      let rest = stop ∷ (tail ++ newline ∷ []) in
      let whole = terminated-offset_line front gap negative c cs stop tail in
      let has : contains (offset_line front gap negative c cs rest) offset_word ≡ true =
        contains-append front b'o' (bytes "ffsetFromMaster")
          (gap ++ signed negative ((c ∷ cs) ++ rest)) in
      let start = number_start front gap negative c cs rest in_front between digits.0 in
      ap ptp_offset (
        fgets_lines-concat 256 (before ++ (line ∷ after)) fit
        ∙ terminated_all-append before (line ∷ after))
      ∙ ptp_offset-skips before (terminated line ∷ terminated_all after) others
      ∙ ap (λ l. ptp_offset (l ∷ terminated_all after)) whole
      ∙ ptp_offset-signed _ negative c (cs ++ rest) (terminated_all after) has start
      ∙ ap some (atoll-signed negative c cs stop (tail ++ newline ∷ []) digits ends small)

  -- For an output of `pmc` of lines that fit the buffer, one of which has the word offsetFromMaster and
  -- behind it a decimal number with its optional minus, its whole part below `2 ^ 63` and followed in
  -- the line by a byte that is no digit, such as the point, while no digit or minus stands in front of
  -- the number and no line before has the word: whatever the other sources say, the clock counts as
  -- synchronised by PTP, with the whole part of the number, signed, as its skew and an uncertainty of
  -- 1000 ns, and as acceptable just if that whole part is below `10 ^ 9`.
  pub detect_clock_sync_lem :
      {F : Type 0} (floats : Floats F) (k : ClockSyncMethods) (chronyc : Option Text)
      (synchronized : Bool)
      → let line = offset_line front gap negative c cs (stop ∷ tail) in
        let output = concat (before ++ (line ∷ after)) in
        let n = decimal 0 (c ∷ cs) in
        detect_clock_sync floats k
          (record { pmc = some output; chronyc = chronyc; synchronized = synchronized })
        ≡ record {
          method = k.ptp;
          estimated_skew_ns = int64 negative n;
          skew_uncertainty_ns = 1000;
          acceptable = ltb n 1000000000;
        }
  detect_clock_sync_lem floats k chronyc synchronized =
      let output = concat (before ++ (offset_line front gap negative c cs (stop ∷ tail) ∷ after)) in
      let n = decimal 0 (c ∷ cs) in
      rw (← below_one_second-int64 negative n small)
        (by_ptp floats k output chronyc synchronized (int64 negative n) ptp_offset-found)
