-- ===== src/SpanId/State.antt =====
-- The state of the generator: two words, never both zero once it is initialised.
use Prim.Native.Nat.{bit_xor}
use mathlib.Core.Path.{subst}
use rmw_robotops.Base.{
  ℕ, ◌*◌, ◌/◌, ◌%◌, ◌^◌, ◌<◌, ◌≡◌, refl, true, false, ◌&&◌, arith, ◌==◌, if-intro,
}
use rmw_robotops.Base.Bits.{bit_xor-eq-zero, bit_xor-zero, bit_xor-lt}
use rmw_robotops.SpanId.{
  XorShift128State, word, shift_left, shift_right, xorshift128plus, init_span_id_generator, seeded,
  generate_span_id, generate_trace_id,
}

-- What xorshift needs: two 64-bit words, not both zero.
pub record IsSeeded (state : XorShift128State) : Type 0 where
  pub low : state.s0 < 2 ^ 64
  pub high : state.s1 < 2 ^ 64
  pub ready : state.initialized ≡ true
  pub nonzero : ¬ ((state.s0 ≡ 0) × (state.s1 ≡ 0))

not_zeros : (a b : ℕ) → ((a == 0) && (b == 0)) ≡ false → ¬ ((a ≡ 0) × (b ≡ 0))
not_zeros a b h p = ground arith

-- Whatever the clock and the thread, initialisation yields a usable state and keeps one it has.
pub init-IsSeeded :
    (nanos thread_id : ℕ) (state : XorShift128State)
    → (state.initialized ≡ true → IsSeeded state)
    → IsSeeded (init_span_id_generator nanos thread_id state)
unfolding init_span_id_generator
init-IsSeeded nanos thread_id state h =
    let a = nanos % word in
    let b = bit_xor (thread_id % word) (shift_right (nanos % word) 32) in
    let small : b < 2 ^ 64 =
      bit_xor-lt 64 (thread_id % word) (shift_right (nanos % word) 32) (omega arith)
        (omega arith) in
    if-intro IsSeeded state.initialized state _ h λ raw.
      if-intro IsSeeded ((a == 0) && (b == 0)) _ _
        (λ zeros. record {
          low = omega arith;
          high = small;
          ready = refl;
          nonzero = λ p. omega arith;
        })
        (λ bit. record {
          low = omega arith;
          high = small;
          ready = refl;
          nonzero = not_zeros a b bit;
        })

-- A shift by 23 that gives the word back leaves only zero.
shift_fixed : (x : ℕ) → x < 2 ^ 64 → x ≡ (x * 2 ^ 23) % 2 ^ 64 → x ≡ 0
shift_fixed x h e = omega arith

down_fixed : (y : ℕ) → y ≡ y / 2 ^ 18 → y ≡ 0
down_fixed y e = omega arith

mixed_zero :
    (x : ℕ)
    → x < 2 ^ 64
    → (let y = bit_xor x (shift_left x 23) in
        bit_xor (bit_xor (bit_xor y 0) (shift_right y 18)) (shift_right 0 5) ≡ 0)
    → x ≡ 0
mixed_zero x h e =
    let y = bit_xor x (shift_left x 23) in
    let flat : bit_xor y (shift_right y 18) ≡ 0 =
      rw (bit_xor-zero y, bit_xor-zero (bit_xor y (shift_right y 18))) at e in
    let y_zero : y ≡ 0 = down_fixed y (bit_xor-eq-zero y (shift_right y 18) flat) in
    shift_fixed x h (bit_xor-eq-zero x (shift_left x 23) y_zero)

-- Drawing a number keeps the state usable: the map has no way into the state of zeros.
pub xorshift128plus-IsSeeded :
    (state : XorShift128State) → IsSeeded state → IsSeeded (xorshift128plus state).1
unfolding xorshift128plus
xorshift128plus-IsSeeded state v = record {
  low = v.high;
  high =
      bit_xor-lt 64 (bit_xor (bit_xor y s1) (shift_right y 18)) (shift_right s1 5)
        (bit_xor-lt 64 (bit_xor y s1) (shift_right y 18) (bit_xor-lt 64 y s1 y_lt v.high)
          (omega (arith, y_lt)))
        (omega arith);
  ready = v.ready;
  nonzero = λ p. v.nonzero (
    mixed_zero s0 v.low (
        subst (λ s. bit_xor (bit_xor (bit_xor y s) (shift_right y 18)) (shift_right s 5) ≡ 0) p.0
          p.1),
    p.0,
  );
}
  where
    open state use {s0, s1}

    y : ℕ
    y = bit_xor s0 (shift_left s0 23)

    y_lt : y < 2 ^ 64
    y_lt = bit_xor-lt 64 s0 (shift_left s0 23) v.low (omega arith)

seeded-IsSeeded :
    (nanos thread_id : ℕ) (state : XorShift128State)
    → (state.initialized ≡ true → IsSeeded state)
    → IsSeeded (seeded nanos thread_id state)
unfolding seeded
seeded-IsSeeded nanos thread_id state h =
    if-intro IsSeeded state.initialized state _ h (λ raw. init-IsSeeded nanos thread_id state h)

-- From the state of a thread that has drawn nothing yet, and from any usable one, both generators
-- leave a usable state, at any clock and thread id.
pub generate-IsSeeded :
    (nanos thread_id : ℕ) (state : XorShift128State)
    → (state.initialized ≡ true → IsSeeded state)
    → IsSeeded (generate_span_id nanos thread_id state).1
      × IsSeeded (generate_trace_id nanos thread_id state).1
unfolding generate_span_id generate_trace_id
generate-IsSeeded nanos thread_id state h =
    let one =
      xorshift128plus-IsSeeded (seeded nanos thread_id state)
        (seeded-IsSeeded nanos thread_id state h) in
    (one, xorshift128plus-IsSeeded (xorshift128plus (seeded nanos thread_id state)).1 one)
