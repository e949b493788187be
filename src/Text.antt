-- ===== src/Text.antt =====
-- Character buffers. A `char` array is the C string that stands in it: its bytes up to the first
-- NUL, which no text holds. `nullptr` is the `none` of an option where the code tests for it.
use rmw_robotops.Base.{
  ℕ, ◌-◌, ◌≤◌, ◌≡◌, refl, Bool, true, false, ◌&&◌, List, [], ◌∷◌, arith, ◌==◌, take, take_all,
  length, length-take,
}

abbrev pub Text : Type 0
Text = List ℕ

-- `memcpy` of `min(strlen(text), size - 1)` bytes, or of `size - 1` bytes out of a buffer of that
-- size, and the NUL behind them. `snprintf("%s")` into `size` bytes leaves the same.
unfoldable pub fill : ℕ → Text → Text
fill size text = take (size - 1) text

-- A text shorter than the buffer is copied whole.
pub fill_whole : (size : ℕ) (text : Text) → length text ≤ size - 1 → fill size text ≡ text
unfolding fill
fill_whole size text h = take_all (size - 1) text h

pub length-fill : (size : ℕ) (text : Text) → length (fill size text) ≤ size - 1
unfolding fill
length-fill size text = omega (arith, length-take (size - 1) text)

-- `strcmp(a, b) == 0`.
unfoldable pub same_text : Text → Text → Bool
same_text [] [] = true
same_text [] (y ∷ ys) = false
same_text (x ∷ xs) [] = false
same_text (x ∷ xs) (y ∷ ys) = (x == y) && same_text xs ys

pub same_text→eq : (xs ys : Text) → same_text xs ys ≡ true → xs ≡ ys
unfolding same_text
same_text→eq [] [] h = refl
same_text→eq [] (y ∷ ys) h = cc
same_text→eq (x ∷ xs) [] h = cc
same_text→eq (x ∷ xs) (y ∷ ys) h = ground (arith, same_text→eq xs ys)

pub same_text_refl : (xs : Text) → same_text xs xs ≡ true
unfolding same_text
same_text_refl [] = refl
same_text_refl (x ∷ xs) = rw (same_text_refl xs) (ground arith)
