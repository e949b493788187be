-- ===== src/SpanId.antt =====
-- src/span_id_generator.cpp: xorshift128+ on a thread's own state, and ids as lower-case hex.
pub mod Hex
pub mod State
use Prim.Native.Nat.{bit_xor, bit_and}
use rmw_robotops.Base.{
  ℕ, zero, suc, ◌+◌, ◌-◌, ◌*◌, ◌/◌, ◌%◌, ◌^◌, Bool, true, false, ◌&&◌, List, [], ◌∷◌, ◌++◌, ◌==◌,
  ltb, if◌then◌else◌,
}

-- `XorShift128State`: the two words of `s`, and the flag.
pub record XorShift128State : Type 0 where
  pub s0 : ℕ
  pub s1 : ℕ
  pub initialized : Bool

abbrev pub fresh_state : XorShift128State
fresh_state = record { s0 = 0; s1 = 0; initialized = false }

abbrev pub word : ℕ
word = 2 ^ 64

-- `x << k` and `x >> k` on `uint64_t`.
abbrev pub shift_left : ℕ → ℕ → ℕ
shift_left x k = (x * 2 ^ k) % word

abbrev pub shift_right : ℕ → ℕ → ℕ
shift_right x k = x / 2 ^ k

pub xorshift128plus : XorShift128State → ℕ × XorShift128State
xorshift128plus state =
    let s0 = state.s1 in
    let s1 = bit_xor state.s0 (shift_left state.s0 23) in
    let mixed = bit_xor (bit_xor (bit_xor s1 s0) (shift_right s1 18)) (shift_right s0 5) in
    ((mixed + s0) % word, record state { s0 = s0; s1 = mixed })

-- The clock and the hash of the thread id, as the words that the source takes them for. `>>` on the
-- signed count copies its sign, which a clock past the epoch does not have.
pub init_span_id_generator : ℕ → ℕ → XorShift128State → XorShift128State
init_span_id_generator nanos thread_id state =
    if state.initialized
    then state
    else (let a = nanos % word in
        let b = bit_xor (thread_id % word) (shift_right (nanos % word) 32) in
        if (a == 0) && (b == 0)
        then record { s0 = 1; s1 = b; initialized = true }
        else record { s0 = a; s1 = b; initialized = true })

-- `hex_chars[d]`.
pub hex_char : ℕ → ℕ
hex_char d = if ltb d 10 then b'0' + d else b'a' + d - 10

-- The loop of `uint64_to_hex` from its last round on: `i` digits are still to be written, before
-- those in `out`.
pub hex_loop : ℕ → ℕ → List ℕ → List ℕ
hex_loop zero value out = out
hex_loop (suc i) value out = hex_loop i (shift_right value 4) (hex_char (bit_and value 0xF) ∷ out)

pub uint64_to_hex : ℕ → List ℕ
uint64_to_hex value = hex_loop 16 value []

-- The generators initialise the state on first use, from the same two readings.
pub seeded : ℕ → ℕ → XorShift128State → XorShift128State
seeded nanos thread_id state =
    if state.initialized then state else init_span_id_generator nanos thread_id state

pub generate_span_id : ℕ → ℕ → XorShift128State → List ℕ × XorShift128State
generate_span_id nanos thread_id state =
    let (id, state') = xorshift128plus (seeded nanos thread_id state) in (uint64_to_hex id, state')

-- The second call writes over the terminator of the first.
pub generate_trace_id : ℕ → ℕ → XorShift128State → List ℕ × XorShift128State
generate_trace_id nanos thread_id state =
    let (high, state') = xorshift128plus (seeded nanos thread_id state) in
    let (low, state'') = xorshift128plus state' in
    (uint64_to_hex high ++ uint64_to_hex low, state'')
