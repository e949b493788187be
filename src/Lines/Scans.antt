-- ===== src/Lines/Scans.antt =====
-- What the scans of a line find.
use rmw_robotops.Base.{
  ℕ, zero, suc, ◌+◌, ◌-◌, ◌≤◌, ◌<◌, ◌≡◌, ◌≢◌, refl, ap, ◌∙◌, Bool, true, false, List, [], ◌∷◌, ◌++◌,
  get_or, drop, length, All, arith,
}
use rmw_robotops.Text.{Text}
use rmw_robotops.Lines.{
  newline, fgets_from, fgets_lines, skip_until, back_while, tokens, starts_with, strstr, contains,
}

-- A line of `text` bytes and the newline.
unfoldable pub terminated : Text → Text
terminated text = text ++ (newline ∷ [])

pub concat : List Text → Text
concat [] = []
concat (line ∷ lines) = terminated line ++ concat lines

unfoldable pub terminated_all : List Text → List Text
terminated_all [] = []
terminated_all (line ∷ lines) = terminated line ∷ terminated_all lines

pub terminated_all-append :
    (xs ys : List Text) → terminated_all (xs ++ ys) ≡ terminated_all xs ++ terminated_all ys
unfolding terminated_all
terminated_all-append [] ys = refl
terminated_all-append (x ∷ xs) ys = ap (λ l. terminated x ∷ l) (terminated_all-append xs ys)

-- No newline inside, and room in a buffer of `size` bytes.
pub record IsLine (size : ℕ) (text : Text) : Type 0 where
  pub plain : All (λ c. c ≢ newline) text
  pub short : length text + 2 ≤ size

fgets_from-line :
    (size room : ℕ) (text rest : Text)
    → All (λ c. c ≢ newline) text
    → length text ≤ room
    → fgets_from size room (terminated text ++ rest) ≡ terminated text ∷ fgets_lines size rest
unfolding fgets_from terminated fgets_lines
fgets_from-line size room [] rest h short = refl
fgets_from-line size zero (c ∷ cs) rest h short = absurd (omega arith)
fgets_from-line size (suc room) (c ∷ cs) rest h short =
    let ih = fgets_from-line size room cs rest h.1 (omega arith) in ground (arith, ih, h.0)

-- A text of lines that fit the buffer is read line by line.
pub fgets_lines-concat :
    (size : ℕ) (lines : List Text)
    → All (IsLine size) lines
    → fgets_lines size (concat lines) ≡ terminated_all lines
unfolding fgets_lines concat terminated_all fgets_from
fgets_lines-concat size [] h = refl
fgets_lines-concat size (line ∷ lines) h =
    fgets_from-line size (size - 2) line (concat lines) h.0.plain
      (let short = h.0.short in omega arith)
    ∙ ap (λ rest. terminated line ∷ rest) (fgets_lines-concat size lines h.1)

-- A field of a line: not empty and without a space.
abbrev pub IsToken : Text → Type 0
IsToken [] = ⊥
IsToken (c ∷ cs) = All (λ d. d ≢ 32) (c ∷ cs)

-- Each field with the space behind it, and the rest.
pub join : List Text → Text → Text
join [] rest = rest
join (field ∷ fields) rest = field ++ (32 ∷ join fields rest)

tokens-field :
    (c : ℕ) (cs rest : Text)
    → All (λ d. d ≢ 32) (c ∷ cs)
    → tokens ((c ∷ cs) ++ (32 ∷ rest)) ≡ (c ∷ cs) ∷ tokens rest
unfolding tokens
tokens-field c [] rest h = ground (arith, h.0)
tokens-field c (d ∷ ds) rest h =
    let ih = tokens-field d ds rest h.1 in rw ih (ground (arith, h.0, h.1.0))

-- Fields that are separated by spaces are the tokens.
pub tokens-join :
    (fields : List Text) (rest : Text)
    → All IsToken fields
    → tokens (join fields rest) ≡ fields ++ tokens rest
unfolding join
tokens-join [] rest h = refl
tokens-join ([] ∷ fields) rest h = absurd h.0
tokens-join ((c ∷ cs) ∷ fields) rest h =
    tokens-field c cs (join fields rest) h.0
    ∙ ap (λ ts. (c ∷ cs) ∷ ts) (tokens-join fields rest h.1)

-- The text in front of a byte that ends the scan is passed over.
pub skip_until-passes :
    (test : ℕ → Bool) (front : Text) (c : ℕ) (rest : Text)
    → All (λ d. test d ≡ false) front
    → test c ≡ true
    → skip_until test (front ++ (c ∷ rest)) ≡ c ∷ rest
unfolding skip_until
skip_until-passes test [] c rest h hit = rw hit refl
skip_until-passes test (d ∷ ds) c rest h hit = rw h.0 (skip_until-passes test ds c rest h.1 hit)

pub drop-append :
    (xs : Text) (c : ℕ) (rest : Text) → drop (suc (length xs)) (xs ++ (c ∷ rest)) ≡ rest
drop-append [] c rest = refl
drop-append (x ∷ xs) c rest = drop-append xs c rest

-- A scan back over `n` bytes that pass the test ends on the byte in front of them, if that one fails.
pub back_while-run :
    (test : ℕ → Bool) (line : Text) (base n i : ℕ)
    → i ≡ base + n
    → test (get_or line base 0) ≡ false
    → ((j : ℕ) → j < n → test (get_or line (base + 1 + j) 0) ≡ true)
    → back_while test line i ≡ base
unfolding back_while
back_while-run test line base zero zero e miss hits = omega arith
back_while-run test line base zero (suc i) e miss hits =
    let same : suc i ≡ base = omega arith in rw same (rw miss refl)
back_while-run test line base (suc n) zero e miss hits = absurd (omega arith)
back_while-run test line base (suc n) (suc i) e miss hits =
    let same : suc i ≡ base + 1 + n = omega arith in
    let hit : test (get_or line (suc i) 0) ≡ true = rw same (hits n (omega arith)) in
    let ih =
      back_while-run test line base n i (omega arith) miss (λ j less. hits j (omega arith)) in
    rw hit ih

pub get_or-front :
    (xs rest : Text) (i : ℕ) → get_or (xs ++ rest) (length xs + i) 0 ≡ get_or rest i 0
get_or-front [] rest i = ap (λ j. get_or rest j 0) (let e : 0 + i ≡ i = omega arith in e)
get_or-front (x ∷ xs) rest i =
    let e : suc (length xs) + i ≡ suc (length xs + i) = omega arith in rw e (get_or-front xs rest i)

pub get_or-All :
    (test : ℕ → Bool) (xs rest : Text) (i : ℕ)
    → All (λ c. test c ≡ true) xs
    → i < length xs
    → test (get_or (xs ++ rest) i 0) ≡ true
get_or-All test [] rest i h less = absurd (omega arith)
get_or-All test (x ∷ xs) rest zero h less = h.0
get_or-All test (x ∷ xs) rest (suc i) h less = get_or-All test xs rest i h.1 (omega arith)

starts_with-append : (word rest : Text) → starts_with word (word ++ rest) ≡ true
unfolding starts_with
starts_with-append [] rest = refl
starts_with-append (p ∷ ps) rest = ground (arith, starts_with-append ps rest)

pub contains-append :
    (front : Text) (p : ℕ) (ps rest : Text) → contains (front ++ ((p ∷ ps) ++ rest)) (p ∷ ps) ≡ true
unfolding contains strstr
contains-append [] p ps rest = ground (arith, starts_with-append (p ∷ ps) rest)
contains-append (c ∷ cs) p ps rest = ground (arith, contains-append cs p ps rest)

pub skip_until-misses :
    (test : ℕ → Bool) (front rest : Text)
    → All (λ d. test d ≡ false) front
    → skip_until test (front ++ rest) ≡ skip_until test rest
unfolding skip_until
skip_until-misses test [] rest h = refl
skip_until-misses test (d ∷ ds) rest h = rw h.0 (skip_until-misses test ds rest h.1)
