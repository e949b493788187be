-- ===== src/Lines.antt =====
-- What src/diagnostics_publisher.cpp uses of the C library on character buffers: the lines that
-- `fgets` returns, searches, the tokens of `strtok_r` at spaces, and its own scans over a line.
pub mod Scans
use rmw_robotops.Base.{
  ℕ, zero, suc, ◌-◌, Bool, true, false, ◌&&◌, ◌||◌, not, Option, none, some, List, [], ◌∷◌, ◌==◌,
  if◌then◌else◌, get_or, drop, length,
}
use rmw_robotops.Text.{Text}
use rmw_robotops.Number.{is_digit, is_space}

abbrev pub newline : ℕ
newline = 10

-- A byte in front of the first line.
abbrev pub onto_first : ℕ → List Text → List Text
onto_first c [] = (c ∷ []) ∷ []
onto_first c (line ∷ lines) = (c ∷ line) ∷ lines

-- The lines of the calls `fgets(line, size, fp)` on a stream: each ends behind a newline, or where the
-- buffer is full. `room` is what is left of the first line.
pub fgets_from : ℕ → ℕ → Text → List Text
fgets_from size room [] = []
fgets_from size room (c ∷ cs) =
    let whole = fgets_from size (size - 2) cs in
    let longer = fgets_from size (room - 1) cs in
    if (c == newline) || (room == 0) then (c ∷ []) ∷ whole else onto_first c longer

pub fgets_lines : ℕ → Text → List Text
fgets_lines size text = fgets_from size (size - 2) text

-- `strstr(line, prefix) == line`.
unfoldable pub starts_with : Text → Text → Bool
starts_with [] line = true
starts_with (p ∷ ps) [] = false
starts_with (p ∷ ps) (c ∷ cs) = (p == c) && starts_with ps cs

-- `strstr`: the index of the first occurrence.
unfoldable pub strstr : Text → Text → Option ℕ
strstr [] needle = if starts_with needle [] then some 0 else none
strstr (c ∷ cs) needle =
    let later = strstr cs needle in
    if starts_with needle (c ∷ cs)
    then some 0
    else elim later [ none ↦ none | some i ↦ some (suc i) ]

unfoldable pub contains : Text → Text → Bool
contains line needle = elim (strstr line needle) [ none ↦ false | some i ↦ true ]

-- `while (*s && !test(*s)) {++s;}`
pub skip_until : (ℕ → Bool) → Text → Text
skip_until test [] = []
skip_until test (c ∷ cs) = if test c then c ∷ cs else skip_until test cs

-- `while (i > 0 && test(line[i])) {--i;}`
pub back_while : (ℕ → Bool) → Text → ℕ → ℕ
back_while test line zero = zero
back_while test line (suc i) =
    let back = back_while test line i in if test (get_or line (suc i) 0) then back else suc i

abbrev pub token_ends : Text → Bool
token_ends [] = true
token_ends (c ∷ cs) = c == 32

-- The tokens of `strtok_r(p, " ", ...)`.
pub tokens : Text → List Text
tokens [] = []
tokens (c ∷ cs) =
    let rest = tokens cs in
    if c == 32 then rest else (if token_ends cs then (c ∷ []) ∷ rest else onto_first c rest)
