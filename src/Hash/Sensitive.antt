-- ===== src/Hash/Sensitive.antt =====
-- The hash and a single octet.
use Prim.Native.Nat.{bit_xor}
use rmw_robotops.Base.{
  ℕ, ◌+◌, ◌*◌, ◌%◌, ◌^◌, ◌<◌, ◌≡◌, ◌≢◌, sym, ap, ◌∙◌, [], ◌∷◌, ◌++◌, arith, All,
}
use rmw_robotops.Base.Bits.{bit_xor-cancel, bit_xor_comm, bit_xor-lt}
use rmw_robotops.Text.{Text}
use rmw_robotops.Hash.{Memory, Members, points, compute_message_hash}
use rmw_robotops.Hash.Spec.{fnv1a_octet, fnv1a_from, fnv1a, message_octets}
use rmw_robotops.Hash.Content.{fnv1a_from-append, compute_message_hash_lem}

abbrev fnv_prime : ℕ
fnv_prime = 2 ^ 40 + 2 ^ 8 + 179

abbrev basis : ℕ
basis = 14695981039346656037

-- The prime is odd: it has an inverse modulo the word size.
abbrev inverse : ℕ
inverse = 14886173955864302971

times_prime_back : (x : ℕ) → x < 2 ^ 64 → ((x * fnv_prime) % 2 ^ 64 * inverse) % 2 ^ 64 ≡ x
times_prime_back x h = omega arith

times_prime_cancel :
    (x y : ℕ)
    → x < 2 ^ 64
    → y < 2 ^ 64
    → (x * fnv_prime) % 2 ^ 64 ≡ (y * fnv_prime) % 2 ^ 64
    → x ≡ y
times_prime_cancel x y hx hy e =
    sym (times_prime_back x hx) ∙ ap (λ k. (k * inverse) % 2 ^ 64) e ∙ times_prime_back y hy

fnv1a_octet-lt : (hash b : ℕ) → fnv1a_octet hash b < 2 ^ 64
unfolding fnv1a_octet
fnv1a_octet-lt hash b = omega arith

-- The step is injective in the hash so far, and in the byte.
octet_cancel_hash :
    (g h b : ℕ) → g < 2 ^ 64 → h < 2 ^ 64 → b < 256 → fnv1a_octet g b ≡ fnv1a_octet h b → g ≡ h
unfolding fnv1a_octet
octet_cancel_hash g h b hg hh hb e =
    let wide : b < 2 ^ 64 = omega arith in
    let mixed =
      times_prime_cancel (bit_xor g b) (bit_xor h b) (bit_xor-lt 64 g b hg wide)
        (bit_xor-lt 64 h b hh wide) e in
    bit_xor-cancel b g h (bit_xor_comm b g ∙ mixed ∙ bit_xor_comm h b)

octet_cancel_byte :
    (h a b : ℕ) → h < 2 ^ 64 → a < 256 → b < 256 → fnv1a_octet h a ≡ fnv1a_octet h b → a ≡ b
unfolding fnv1a_octet
octet_cancel_byte h a b hh ha hb e = bit_xor-cancel h a b (
    times_prime_cancel (bit_xor h a) (bit_xor h b) (bit_xor-lt 64 h a hh (omega arith))
      (bit_xor-lt 64 h b hh (omega arith)) e)

fnv1a_from_cancel :
    (post : Text) (g h : ℕ)
    → g < 2 ^ 64
    → h < 2 ^ 64
    → All (λ b. b < 256) post
    → fnv1a_from g post ≡ fnv1a_from h post
    → g ≡ h
unfolding fnv1a_from
fnv1a_from_cancel [] g h hg hh all e = e
fnv1a_from_cancel (b ∷ bs) g h hg hh all e = octet_cancel_hash g h b hg hh all.0 (
    fnv1a_from_cancel bs (fnv1a_octet g b) (fnv1a_octet h b) (fnv1a_octet-lt g b)
      (fnv1a_octet-lt h b) all.1 e)

fnv1a_from-lt : (pre : Text) (h : ℕ) → h < 2 ^ 64 → fnv1a_from h pre < 2 ^ 64
unfolding fnv1a_from
fnv1a_from-lt [] h hh = hh
fnv1a_from-lt (b ∷ bs) h hh = fnv1a_from-lt bs (fnv1a_octet h b) (fnv1a_octet-lt h b)

hash_through :
    (memory : Memory) (a : ℕ) (ms : Members) (pre post : Text) (x : ℕ)
    → a ≢ 0
    → message_octets memory ms a ≡ pre ++ x ∷ post
    → compute_message_hash memory a (points ms)
      ≡ fnv1a_from (fnv1a_octet (fnv1a_from basis pre) x) post
unfolding fnv1a_from fnv1a
hash_through memory a ms pre post x h e =
    compute_message_hash_lem memory a ms h ∙ ap fnv1a e ∙ fnv1a_from-append pre (x ∷ post) basis

-- Two messages that are not null and whose octets, as Hash/Spec describes them, are bytes that differ
-- in one place only never have the same hash. Fields of the types that `other` stands for have no
-- octets.
pub one_byte_changes_hash :
    (here there : Memory) (a b : ℕ) (ms ns : Members) (pre post : Text) (x y : ℕ)
    → a ≢ 0
    → b ≢ 0
    → message_octets here ms a ≡ pre ++ x ∷ post
    → message_octets there ns b ≡ pre ++ y ∷ post
    → x < 256
    → y < 256
    → All (λ c. c < 256) post
    → x ≢ y
    → compute_message_hash here a (points ms) ≢ compute_message_hash there b (points ns)
one_byte_changes_hash here there a b ms ns pre post x y ha hb ex ey hx hy all ne same =
    let h = fnv1a_from basis pre in
    let hh = fnv1a_from-lt pre basis (omega arith) in
    ne (
      octet_cancel_byte h x y hh hx hy (
        fnv1a_from_cancel post (fnv1a_octet h x) (fnv1a_octet h y) (fnv1a_octet-lt h x)
          (fnv1a_octet-lt h y) all
          (sym (hash_through here a ms pre post x ha ex)
            ∙ same
            ∙ hash_through there b ns pre post y hb ey)))
