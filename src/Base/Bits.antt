-- ===== src/Base/Bits.antt =====
-- Laws of `^` and `&` on words: the libraries have only the digit recursions that they stand for.
use Prim.Native.Nat.{
  ℕ, zero, suc, ◌+◌, ◌*◌, ◌/◌, ◌%◌, ◌^◌, ◌≤◌, ◌<◌, min, bit_and, bit_xor, digits, differ,
  bit_and-bitwise, bit_xor-bitwise,
}
use mathlib.Core.Path.{◌≡◌, refl, ap}
use native.Mathlib.Nat.{pow-suc}
use native.Mathlib.Omega.{arith}

-- The count of digits to go does not matter, once it is enough.
digits_fuel :
    (z : ℕ → ℕ) (f : ℕ → ℕ → ℕ) (n m a b : ℕ) → a ≤ n → a ≤ m → digits z f n a b ≡ digits z f m a b
digits_fuel z f zero zero a b p q = refl
digits_fuel z f zero (suc m) zero b p q = refl
digits_fuel z f zero (suc m) (suc a) b p q = absurd (omega arith)
digits_fuel z f (suc n) zero zero b p q = refl
digits_fuel z f (suc n) zero (suc a) b p q = absurd (omega arith)
digits_fuel z f (suc n) (suc m) zero b p q = refl
digits_fuel z f (suc n) (suc m) (suc a) b p q =
    ap (λ (k : ℕ). k * 2 + f (suc a % 2) (b % 2))
      (digits_fuel z f n m (suc a / 2) (b / 2) (omega arith) (omega arith))

pub zero-bit_xor : (b : ℕ) → bit_xor 0 b ≡ b
zero-bit_xor b = bit_xor-bitwise 0 b

differ-zero : (y : ℕ) → differ 0 y ≡ y
differ-zero y = refl

-- An operation that works digit by digit keeps the lowest digit apart from the others.
lowest_apart :
    (op : ℕ → ℕ → ℕ) (z : ℕ → ℕ) (f : ℕ → ℕ → ℕ)
    → ((x y : ℕ) → op x y ≡ digits z f x x y)
    → ((y : ℕ) → z y ≡ z (y / 2) * 2 + f 0 (y % 2))
    → (x y : ℕ) → op x y ≡ op (x / 2) (y / 2) * 2 + f (x % 2) (y % 2)
lowest_apart op z f law base zero y = omega (arith, law 0 y, law 0 (y / 2), base y)
lowest_apart op z f law base (suc x) y =
    let rest = digits_fuel z f x (suc x / 2) (suc x / 2) (y / 2) (omega arith) (omega arith) in
    omega (arith, law (suc x) y, law (suc x / 2) (y / 2), rest)

pub bit_xor_step : (a b : ℕ) → bit_xor a b ≡ bit_xor (a / 2) (b / 2) * 2 + differ (a % 2) (b % 2)
bit_xor_step =
    lowest_apart bit_xor (λ k. k) differ bit_xor-bitwise (λ y. omega (arith, differ-zero (y % 2)))

differ-digit : (x y : ℕ) → x < 2 → y < 2 → differ x y < 2
differ-digit zero y p q = q
differ-digit (suc x) zero p q = p
differ-digit (suc x) (suc y) p q = differ-digit x y (omega arith) (omega arith)

differ-eq-zero : (x y : ℕ) → differ x y ≡ 0 → x ≡ y
differ-eq-zero zero y e = omega arith
differ-eq-zero (suc x) zero e = absurd (omega arith)
differ-eq-zero (suc x) (suc y) e = omega (arith, differ-eq-zero x y e)

bit_xor_halves :
    (a b : ℕ) → bit_xor a b ≡ 0 → (bit_xor (a / 2) (b / 2) ≡ 0) × (differ (a % 2) (b % 2) ≡ 0)
bit_xor_halves a b e = omega (arith, bit_xor_step a b)

bit_xor-eq-zero_fuel : (n a b : ℕ) → a ≤ n → bit_xor a b ≡ 0 → a ≡ b
bit_xor-eq-zero_fuel n zero b h e = omega (arith, zero-bit_xor b)
bit_xor-eq-zero_fuel zero (suc a) b h e = absurd (omega arith)
bit_xor-eq-zero_fuel (suc n) (suc a) b h e =
    let parts = bit_xor_halves (suc a) b e in
    omega (
      arith,
      differ-eq-zero (suc a % 2) (b % 2) parts.1,
      bit_xor-eq-zero_fuel n (suc a / 2) (b / 2) (omega arith) parts.0,
    )

pub bit_xor-eq-zero : (a b : ℕ) → bit_xor a b ≡ 0 → a ≡ b
bit_xor-eq-zero a b = bit_xor-eq-zero_fuel a a b (omega arith)

differ_zero : (x : ℕ) → differ x 0 ≡ x
differ_zero zero = refl
differ_zero (suc x) = refl

bit_xor-zero_fuel : (n a : ℕ) → a ≤ n → bit_xor a 0 ≡ a
bit_xor-zero_fuel n zero h = refl
bit_xor-zero_fuel zero (suc a) h = absurd (omega arith)
bit_xor-zero_fuel (suc n) (suc a) h = omega (
  arith,
  bit_xor_step (suc a) 0,
  differ_zero (suc a % 2),
  bit_xor-zero_fuel n (suc a / 2) (omega arith),
)

pub bit_xor-zero : (a : ℕ) → bit_xor a 0 ≡ a
bit_xor-zero a = bit_xor-zero_fuel a a (omega arith)

-- `^` of two k-bit words is a k-bit word.
pub bit_xor-lt : (k a b : ℕ) → a < 2 ^ k → b < 2 ^ k → bit_xor a b < 2 ^ k
bit_xor-lt zero zero zero p q = p
bit_xor-lt zero zero (suc b) p q = absurd (omega arith)
bit_xor-lt zero (suc a) b p q = absurd (omega arith)
bit_xor-lt (suc k) a b p q = omega (
  arith,
  pow-suc 2 k,
  bit_xor_step a b,
  differ-digit (a % 2) (b % 2) (omega arith) (omega arith),
  bit_xor-lt k (a / 2) (b / 2) (omega (arith, pow-suc 2 k)) (omega (arith, pow-suc 2 k)),
)

bit_and_step : (a b : ℕ) → bit_and a b ≡ bit_and (a / 2) (b / 2) * 2 + min (a % 2) (b % 2)
bit_and_step = lowest_apart bit_and (λ k. 0) min bit_and-bitwise (λ y. omega arith)

below_one : (a : ℕ) → a < 1 → a ≡ 0
below_one a small = omega arith

lt-pow : (n : ℕ) → n < 2 ^ n
lt-pow zero = omega arith
lt-pow (suc n) = omega (arith, lt-pow n, pow-suc 2 n)

-- Nothing is left of a word of `n` digits under the mask 0.
no_mask : (n a : ℕ) → a < 2 ^ n → bit_and a 0 ≡ 0
no_mask zero a small = omega (arith, bit_and-bitwise 0 0, ap (λ x. bit_and x 0) (below_one a small))
no_mask (suc n) a small =
    let fewer : a / 2 < 2 ^ n = omega (arith, pow-suc 2 n) in
    omega (arith, bit_and_step a 0, no_mask n (a / 2) fewer)

-- `x & 0xF` is the last hexadecimal digit.
pub bit_and_nibble : (a : ℕ) → bit_and a 0xF ≡ a % 16
bit_and_nibble a =
    let high = a / 2 / 2 / 2 / 2 in
    let one = bit_and_step (a / 2 / 2 / 2) 1 in
    let two = bit_and_step (a / 2 / 2) 3 in
    let three = bit_and_step (a / 2) 7 in
    omega (arith, bit_and_step a 15, three, two, one, no_mask high high (lt-pow high))

differ_cancel : (x y z : ℕ) → x < 2 → y < 2 → z < 2 → differ x y ≡ differ x z → y ≡ z
differ_cancel zero y z hx hy hz e = e
differ_cancel (suc zero) zero zero hx hy hz e = refl
differ_cancel (suc zero) zero (suc zero) hx hy hz e = absurd (omega arith)
differ_cancel (suc zero) (suc zero) zero hx hy hz e = absurd (omega arith)
differ_cancel (suc zero) (suc zero) (suc zero) hx hy hz e = refl
differ_cancel (suc zero) (suc (suc y)) z hx hy hz e = absurd (omega arith)
differ_cancel (suc zero) y (suc (suc z)) hx hy hz e = absurd (omega arith)
differ_cancel (suc (suc x)) y z hx hy hz e = absurd (omega arith)

differ_comm : (x y : ℕ) → differ x y ≡ differ y x
differ_comm zero zero = refl
differ_comm zero (suc y) = refl
differ_comm (suc x) zero = refl
differ_comm (suc x) (suc y) = differ_comm x y

same_parts :
    (a b c : ℕ)
    → bit_xor a b ≡ bit_xor a c
    → (bit_xor (a / 2) (b / 2) ≡ bit_xor (a / 2) (c / 2))
      × (differ (a % 2) (b % 2) ≡ differ (a % 2) (c % 2))
same_parts a b c e = omega (
  arith,
  bit_xor_step a b,
  bit_xor_step a c,
  differ-digit (a % 2) (b % 2) (omega arith) (omega arith),
  differ-digit (a % 2) (c % 2) (omega arith) (omega arith),
)

-- `^` by one word is injective, on either side.
bit_xor-cancel_fuel : (n a b c : ℕ) → a ≤ n → bit_xor a b ≡ bit_xor a c → b ≡ c
bit_xor-cancel_fuel n zero b c h e = omega (arith, zero-bit_xor b, zero-bit_xor c)
bit_xor-cancel_fuel zero (suc a) b c h e = absurd (omega arith)
bit_xor-cancel_fuel (suc n) (suc a) b c h e =
    let parts = same_parts (suc a) b c e in
    omega (
      arith,
      bit_xor-cancel_fuel n (suc a / 2) (b / 2) (c / 2) (omega arith) parts.0,
      differ_cancel (suc a % 2) (b % 2) (c % 2) (omega arith) (omega arith) (omega arith) parts.1,
    )

pub bit_xor-cancel : (a b c : ℕ) → bit_xor a b ≡ bit_xor a c → b ≡ c
bit_xor-cancel a b c = bit_xor-cancel_fuel a a b c (omega arith)

bit_xor_comm_fuel : (n a b : ℕ) → a ≤ n → bit_xor a b ≡ bit_xor b a
bit_xor_comm_fuel n zero b h = omega (arith, zero-bit_xor b, bit_xor-zero b)
bit_xor_comm_fuel zero (suc a) b h = absurd (omega arith)
bit_xor_comm_fuel (suc n) (suc a) b h = omega (
  arith,
  bit_xor_step (suc a) b,
  bit_xor_step b (suc a),
  differ_comm (suc a % 2) (b % 2),
  bit_xor_comm_fuel n (suc a / 2) (b / 2) (omega arith),
)

pub bit_xor_comm : (a b : ℕ) → bit_xor a b ≡ bit_xor b a
bit_xor_comm a b = bit_xor_comm_fuel a a b (omega arith)
