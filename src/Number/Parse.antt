-- ===== src/Number/Parse.antt =====
-- What the checked parses accept, and what they make of it.
use rmw_robotops.Base.{
  ℕ, ◌+◌, ◌-◌, ◌*◌, ◌^◌, ◌≤◌, ◌≡◌, refl, Bool, true, false, Option, none, some, [], ◌∷◌, ◌++◌,
  arith, All, leb, ◌==◌, if◌then◌else◌,
}
use rmw_robotops.Text.{Text}
use rmw_robotops.Number.{
  is_digit, is_space, read_digits, scan, uint32_max, get_env_uint32, get_dds_domain_id,
}

abbrev pub IsDigit : ℕ → Type 0
IsDigit c = (b'0' ≤ c) × (c ≤ b'9')

-- The number that decimal digits stand for, read on from `acc`.
abbrev pub decimal : ℕ → Text → ℕ
decimal acc [] = acc
decimal acc (c ∷ cs) = decimal (acc * 10 + (c - b'0')) cs

not_space : (c : ℕ) → IsDigit c → is_space c ≡ false
not_space c h = ground arith

not_minus : (c : ℕ) → IsDigit c → (c == b'-') ≡ false
not_minus c h = ground arith

not_plus : (c : ℕ) → IsDigit c → (c == b'+') ≡ false
not_plus c h = ground arith

pub digit_test : (c : ℕ) → IsDigit c → is_digit c ≡ true
digit_test c h = ground arith

read_digits-All :
    (any : Bool) (acc : ℕ) (c : ℕ) (cs : Text)
    → All IsDigit (c ∷ cs)
    → read_digits any acc (c ∷ cs) ≡ (true, decimal acc (c ∷ cs), [])
unfolding read_digits
read_digits-All any acc c [] h = rw (digit_test c h.0)
read_digits-All any acc c (d ∷ ds) h =
    rw (digit_test c h.0, read_digits-All true (acc * 10 + (c - b'0')) d ds h.1)

scan_digits :
    (c : ℕ) (cs : Text)
    → All IsDigit (c ∷ cs)
    → scan (c ∷ cs)
      ≡ record { negative = false; any = true; magnitude = decimal 0 (c ∷ cs); rest = [] }
unfolding scan
scan_digits c cs h =
    rw (not_space c h.0, not_minus c h.0, not_plus c h.0, read_digits-All false 0 c cs h)

scan_minus :
    (c : ℕ) (cs : Text)
    → All IsDigit (c ∷ cs)
    → scan (b'-' ∷ c ∷ cs)
      ≡ record { negative = true; any = true; magnitude = decimal 0 (c ∷ cs); rest = [] }
unfolding scan
scan_minus c cs h = rw (read_digits-All false 0 c cs h)

read_digits-before :
    (any : Bool) (acc c : ℕ) (cs : Text) (stop : ℕ) (rest : Text)
    → All IsDigit (c ∷ cs)
    → is_digit stop ≡ false
    → read_digits any acc ((c ∷ cs) ++ (stop ∷ rest)) ≡ (true, decimal acc (c ∷ cs), stop ∷ rest)
unfolding read_digits
read_digits-before any acc c [] stop rest h e = rw (digit_test c h.0, e)
read_digits-before any acc c (d ∷ ds) stop rest h e =
    rw (digit_test c h.0, read_digits-before true (acc * 10 + (c - b'0')) d ds stop rest h.1 e)

-- Digits in front of another byte.
pub scan_digits-before :
    (c : ℕ) (cs : Text) (stop : ℕ) (rest : Text)
    → All IsDigit (c ∷ cs)
    → is_digit stop ≡ false
    → scan ((c ∷ cs) ++ (stop ∷ rest))
      ≡ record { negative = false; any = true; magnitude = decimal 0 (c ∷ cs); rest = stop ∷ rest }
unfolding scan
scan_digits-before c cs stop rest h e = rw (
  not_space c h.0,
  not_minus c h.0,
  not_plus c h.0,
  read_digits-before false 0 c cs stop rest h e,
)

pub scan_minus-before :
    (c : ℕ) (cs : Text) (stop : ℕ) (rest : Text)
    → All IsDigit (c ∷ cs)
    → is_digit stop ≡ false
    → scan (b'-' ∷ ((c ∷ cs) ++ (stop ∷ rest)))
      ≡ record { negative = true; any = true; magnitude = decimal 0 (c ∷ cs); rest = stop ∷ rest }
unfolding scan
scan_minus-before c cs stop rest h e = rw (read_digits-before false 0 c cs stop rest h e) refl

-- Whatever the environment holds, a number read with a 32-bit default is one of 32 bits, and the
-- domain id is at most 232.
pub parsed_range :
    (text : Option Text) (default_value : ℕ)
    → default_value ≤ uint32_max
    → (get_env_uint32 text default_value ≤ uint32_max) × (get_dds_domain_id text ≤ 232)
unfolding get_env_uint32 get_dds_domain_id
parsed_range none default_value h = (h, omega arith)
parsed_range (some text) default_value h = (ground arith, ground arith)

-- Plain decimal digits are read as their number where it fits, and otherwise as the default, which
-- is 0 for the domain id.
pub parse_digits :
    (c : ℕ) (cs : Text) (default_value : ℕ)
    → All IsDigit (c ∷ cs)
    → let n = decimal 0 (c ∷ cs) in
      (get_env_uint32 (some (c ∷ cs)) default_value
        ≡ (if leb n uint32_max then n else default_value))
      × (get_dds_domain_id (some (c ∷ cs)) ≡ (if leb n 232 then n else 0))
unfolding get_env_uint32 get_dds_domain_id
parse_digits c cs default_value h =
    (ground (arith, scan_digits c cs h), ground (arith, scan_digits c cs h))

-- A minus is not refused: for `n` from 1 up to the largest 32-bit number, the digits of `2 ^ 64 - n`
-- behind a minus are accepted as `n`.
pub parse_minus :
    (c : ℕ) (cs : Text) (default_value n : ℕ)
    → All IsDigit (c ∷ cs)
    → 1 ≤ n
    → n ≤ uint32_max
    → decimal 0 (c ∷ cs) + n ≡ 2 ^ 64
    → get_env_uint32 (some (b'-' ∷ c ∷ cs)) default_value ≡ n
unfolding get_env_uint32
parse_minus c cs default_value n h low high e = ground (arith, scan_minus c cs h)
