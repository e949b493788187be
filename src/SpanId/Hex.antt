-- ===== src/SpanId/Hex.antt =====
-- What `uint64_to_hex` writes: sixteen lower-case digits from which the value can be read back.
use native.Mathlib.Nat.{pow-suc}
use Prim.Native.Nat.{bit_and}
use rmw_robotops.Base.{
  ℕ, zero, suc, ◌+◌, ◌-◌, ◌*◌, ◌/◌, ◌%◌, ◌^◌, ◌≤◌, ◌<◌, ◌≡◌, refl, sym, ap, ◌∙◌, List, [], ◌∷◌,
  ◌++◌, append_assoc, arith, leb, if◌then◌else◌, length, length-append, All, All-append, ◌⊎◌, take,
  drop, take-append, drop-append,
}
use rmw_robotops.Base.Bits.{bit_and_nibble}
use rmw_robotops.SpanId.{
  XorShift128State, hex_char, hex_loop, uint64_to_hex, seeded, xorshift128plus, generate_span_id,
  generate_trace_id,
}

-- A character of "0123456789abcdef".
abbrev pub IsHexDigit : ℕ → Type 0
IsHexDigit c = ((b'0' ≤ c) × (c ≤ b'9')) ⊎ ((b'a' ≤ c) × (c ≤ b'f'))

-- The number that a lower-case hex text stands for, read on from `acc`.
pub hex_digit : ℕ → ℕ
hex_digit c = if leb c b'9' then c - b'0' else c - b'a' + 10

pub from_hex : ℕ → List ℕ → ℕ
from_hex acc [] = acc
from_hex acc (c ∷ cs) = from_hex (acc * 16 + hex_digit c) cs

pub hex_digit-hex_char : (d : ℕ) → d < 16 → hex_digit (hex_char d) ≡ d
unfolding hex_digit hex_char
hex_digit-hex_char d h = ground arith

hex_char-IsHexDigit : (d : ℕ) → d < 16 → IsHexDigit (hex_char d)
unfolding hex_char
hex_char-IsHexDigit d h = grind arith

hex_loop-append : (i v : ℕ) (out : List ℕ) → hex_loop i v out ≡ hex_loop i v [] ++ out
unfolding hex_loop
hex_loop-append zero v out = refl
hex_loop-append (suc i) v out =
    let c = hex_char (bit_and v 0xF) in
    hex_loop-append i (v / 2 ^ 4) (c ∷ out)
    ∙ sym (append_assoc (hex_loop i (v / 2 ^ 4) []) (c ∷ []) out)
    ∙ ap (λ l. l ++ out) (sym (hex_loop-append i (v / 2 ^ 4) (c ∷ [])))

-- The last round writes the last digit.
hex_loop_last : (i v : ℕ) → hex_loop (suc i) v [] ≡ hex_loop i (v / 16) [] ++ hex_char (v % 16) ∷ []
unfolding hex_loop
hex_loop_last i v = rw (bit_and_nibble v) (hex_loop-append i (v / 16) (hex_char (v % 16) ∷ []))

length-hex_loop : (i v : ℕ) → length (hex_loop i v []) ≡ i
length-hex_loop zero v = unfold hex_loop in refl
length-hex_loop (suc i) v = rw (hex_loop_last i v) (
    omega (
      arith,
      length-append (hex_loop i (v / 16) []) (hex_char (v % 16) ∷ []),
      length-hex_loop i (v / 16),
    ))

hex_loop-IsHexDigit : (i v : ℕ) → All IsHexDigit (hex_loop i v [])
hex_loop-IsHexDigit zero v = unfold hex_loop in tt
hex_loop-IsHexDigit (suc i) v = rw (hex_loop_last i v) (
    All-append IsHexDigit (hex_loop i (v / 16) []) (hex_char (v % 16) ∷ [])
      (hex_loop-IsHexDigit i (v / 16)) (hex_char-IsHexDigit (v % 16) (omega arith), tt))

from_hex-append :
    (acc : ℕ) (xs ys : List ℕ) → from_hex acc (xs ++ ys) ≡ from_hex (from_hex acc xs) ys
unfolding from_hex
from_hex-append acc [] ys = refl
from_hex-append acc (x ∷ xs) ys = from_hex-append (acc * 16 + hex_digit x) xs ys

from_hex_last : (acc c : ℕ) → from_hex acc (c ∷ []) ≡ acc * 16 + hex_digit c
unfolding from_hex
from_hex_last acc c = refl

from_hex-hex_loop : (i v acc : ℕ) → v < 16 ^ i → from_hex acc (hex_loop i v []) ≡ acc * 16 ^ i + v
from_hex-hex_loop zero v acc h = unfold hex_loop from_hex in omega arith
from_hex-hex_loop (suc i) v acc h =
    rw
      (
        hex_loop_last i v,
        from_hex-append acc (hex_loop i (v / 16) []) (hex_char (v % 16) ∷ []),
        from_hex-hex_loop i (v / 16) acc (omega (arith, pow-suc 16 i)),
        from_hex_last (acc * 16 ^ i + v / 16) (hex_char (v % 16)),
        hex_digit-hex_char (v % 16) (omega arith),
        pow-suc 16 i,
      )
      (omega arith)

-- The text of a 64-bit value has sixteen digits, all of them in 0-9a-f, and reads back as the value.
pub uint64_to_hex_lem :
    (v : ℕ)
    → v < 2 ^ 64
    → (length (uint64_to_hex v) ≡ 16)
      × All IsHexDigit (uint64_to_hex v)
      × (from_hex 0 (uint64_to_hex v) ≡ v)
unfolding uint64_to_hex
uint64_to_hex_lem v h =
    (length-hex_loop 16 v, hex_loop-IsHexDigit 16 v, omega (arith, from_hex-hex_loop 16 v 0 h))

pub xorshift128plus-lt : (state : XorShift128State) → (xorshift128plus state).0 < 2 ^ 64
unfolding xorshift128plus
xorshift128plus-lt state = omega arith

append_sixteen :
    (xs ys : List ℕ)
    → length xs ≡ 16
    → length ys ≡ 16
    → (length (xs ++ ys) ≡ 32) × (take 16 (xs ++ ys) ≡ xs) × (drop 16 (xs ++ ys) ≡ ys)
append_sixteen xs ys h k = (
  omega (arith, length-append xs ys),
  ap (λ n. take n (xs ++ ys)) (sym h) ∙ take-append xs ys,
  ap (λ n. drop n (xs ++ ys)) (sym h) ∙ drop-append xs ys,
)

module _ (nanos thread_id : ℕ) (state : XorShift128State) where
  -- A span id is the hex text, sixteen digits long, of the next number of the thread's generator.
  pub generate_span_id_lem :
      let (id, after) = generate_span_id nanos thread_id state in
      let (n, drawn) = xorshift128plus (seeded nanos thread_id state) in
      (length id ≡ 16) × All IsHexDigit id × (from_hex 0 id ≡ n) × (after ≡ drawn)
  unfolding generate_span_id
  generate_span_id_lem =
      let n = (xorshift128plus (seeded nanos thread_id state)).0 in
      let text = uint64_to_hex_lem n (xorshift128plus-lt (seeded nanos thread_id state)) in
      (text.0, text.1, text.2, refl)

  -- A trace id has thirty-two digits, all in 0-9a-f: its halves read back as the next two numbers of
  -- the generator, in the order drawn.
  pub generate_trace_id_lem :
      let id = (generate_trace_id nanos thread_id state).0 in
      let (high, between) = xorshift128plus (seeded nanos thread_id state) in
      (length id ≡ 32)
      × All IsHexDigit id
      × (from_hex 0 (take 16 id) ≡ high)
      × (from_hex 0 (drop 16 id) ≡ (xorshift128plus between).0)
  unfolding generate_trace_id
  generate_trace_id_lem =
      let (n, between) = xorshift128plus (seeded nanos thread_id state) in
      let high = uint64_to_hex_lem n (xorshift128plus-lt (seeded nanos thread_id state)) in
      let low = uint64_to_hex_lem (xorshift128plus between).0 (xorshift128plus-lt between) in
      let split =
        append_sixteen (uint64_to_hex n) (uint64_to_hex (xorshift128plus between).0) high.0 low.0 in
      (
        split.0,
        All-append IsHexDigit (uint64_to_hex n) (uint64_to_hex (xorshift128plus between).0) high.1
            low.1,
        ap (from_hex 0) split.1 ∙ high.2,
        ap (from_hex 0) split.2 ∙ low.2,
      )
