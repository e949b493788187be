-- ===== src/Diagnostics/Chrony.antt =====
-- What `parse_chrony_tracking` reads out of a line of `chronyc`.
use rmw_robotops.Base.{
  ℕ, suc, ◌+◌, ◌<◌, ◌≡◌, refl, true, false, ◌∷◌, ◌++◌, All, arith, length, drop, get_or,
}
use rmw_robotops.Text.{Text}
use rmw_robotops.Number.{is_space}
use rmw_robotops.Lines.{back_while}
use rmw_robotops.Lines.Scans.{back_while-run, get_or-front, get_or-All, drop-append}
use rmw_robotops.Diagnostics.Clock.{number_index, is_number_byte}

number_byte_not_space : (c : ℕ) → is_number_byte c ≡ true → is_space c ≡ false
number_byte_not_space c h = ground arith

get_or-number :
    (front : Text) (c : ℕ) (number tail : Text)
    → All (λ x. is_number_byte x ≡ true) number
    → (j i : ℕ) → j < length number
    → i ≡ length front + 1 + j
    → is_number_byte (get_or (front ++ (c ∷ (number ++ tail))) i 0) ≡ true
get_or-number front c number tail hits j i less e =
    let same : i ≡ length front + suc j = omega arith in
    rw (same, get_or-front front (c ∷ (number ++ tail)) (suc j))
      (get_or-All is_number_byte number tail j hits less)

get_or-blank :
    (front : Text) (c : ℕ) (number blanks rest : Text)
    → All (λ x. is_space x ≡ true) blanks
    → (j i : ℕ) → j < length blanks
    → i ≡ length front + 1 + length number + j
    → is_space (get_or (front ++ (c ∷ (number ++ (blanks ++ rest)))) i 0) ≡ true
get_or-blank front c number blanks rest spaces j i less e =
    let same : i ≡ length front + suc (length number + j) = omega arith in
    rw
      (
        same,
        get_or-front front (c ∷ (number ++ (blanks ++ rest))) (suc (length number + j)),
        get_or-front number (blanks ++ rest) j,
      )
      (get_or-All is_space blanks rest j spaces less)

number_in_front :
    (front : Text) (c : ℕ) (rest : Text)
    → is_number_byte c ≡ false
    → is_number_byte (get_or (front ++ (c ∷ rest)) (length front) 0) ≡ false
number_in_front front c rest miss =
    let same : length front ≡ length front + 0 = omega arith in
    rw (same, get_or-front front (c ∷ rest) 0) miss

-- For a number of digits, points and minus signs with spaces between it and the word at the index,
-- and another byte in front of it, `atof` starts at the first byte of the number.
number_index_lem :
    (front : Text) (c d : ℕ) (ds blanks rest : Text)
    → is_number_byte c ≡ false
    → All (λ x. is_number_byte x ≡ true) (d ∷ ds)
    → All (λ x. is_space x ≡ true) blanks
    → let line = front ++ (c ∷ ((d ∷ ds) ++ (blanks ++ rest))) in
      drop (number_index line (length front + 2 + length ds + length blanks)) line
      ≡ (d ∷ ds) ++ (blanks ++ rest)
unfolding number_index
number_index_lem front c d ds blanks rest miss hits spaces =
    let tail = blanks ++ rest in
    let line = front ++ (c ∷ ((d ∷ ds) ++ tail)) in
    let last = length front + 1 + length ds in
    let in_number = get_or-number front c (d ∷ ds) tail hits in
    let end : back_while is_space line (last + length blanks) ≡ last =
      back_while-run is_space line last (length blanks) (last + length blanks) refl
        (number_byte_not_space (get_or line last 0)
          (in_number (length ds) last (omega arith) (omega arith)))
        (λ j less.
          get_or-blank front c (d ∷ ds) blanks rest spaces j (last + 1 + j) less (omega arith)) in
    let start : back_while is_number_byte line last ≡ length front =
      back_while-run is_number_byte line (length front) (suc (length ds)) last (omega arith)
        (number_in_front front c ((d ∷ ds) ++ tail) miss)
        (λ j less. in_number j (length front + 1 + j) less (omega arith)) in
    let index : length front + 2 + length ds + length blanks ≡ suc (last + length blanks) =
      omega arith in
    rw (index, end, start) (drop-append front c ((d ∷ ds) ++ tail))
