-- ===== src/Number.antt =====
-- `strtoull` and `strtoll` at base 10, as src/config.cpp and include/rmw_robotops/utils.hpp use
-- them, and the checked parses on top of them.
pub mod Parse
use rmw_robotops.Base.{
  ℕ, zero, suc, ◌+◌, ◌-◌, ◌*◌, ◌%◌, ◌^◌, Bool, true, false, ◌&&◌, ◌||◌, not, Option, none, some,
  List, [], ◌∷◌, ltb, leb, ◌==◌, if◌then◌else◌,
}
use rmw_robotops.Text.{Text}

abbrev pub is_digit : ℕ → Bool
is_digit c = leb b'0' c && leb c b'9'

-- `isspace` in the C locale.
abbrev pub is_space : ℕ → Bool
is_space c = (c == 32) || (leb 9 c && leb c 13)

pub skip_space : Text → Text
skip_space [] = []
skip_space (c ∷ cs) = if is_space c then skip_space cs else c ∷ cs

-- The digits at the front: whether there is one, their value on from `acc`, and the rest.
pub read_digits : Bool → ℕ → Text → Bool × ℕ × Text
read_digits any acc [] = (any, acc, [])
read_digits any acc (c ∷ cs) =
    let rest = read_digits true (acc * 10 + (c - b'0')) cs in
    if is_digit c then rest else (any, acc, c ∷ cs)

-- An optional sign: whether it is a minus, and what follows.
pub read_sign : Text → Bool × Text
read_sign [] = (false, [])
read_sign (c ∷ cs) =
    if c == b'-' then (true, cs) else (if c == b'+' then (false, cs) else (false, c ∷ cs))

-- Sign, whether a digit was read (if not, `endptr` is the start), magnitude, and the text at `endptr`.
pub record Scan : Type 0 where
  pub negative : Bool
  pub any : Bool
  pub magnitude : ℕ
  pub rest : Text

pub scan : Text → Scan
unfolding skip_space read_sign
scan text =
    let (negative, digits) = read_sign (skip_space text) in
    let (any, magnitude, rest) = read_digits false 0 digits in
    record { negative = negative; any = any; magnitude = magnitude; rest = rest }

abbrev pub ullong_max : ℕ
ullong_max = 2 ^ 64 - 1

abbrev pub uint32_max : ℕ
uint32_max = 2 ^ 32 - 1

-- `strtoull`: saturates, and negates in 64 bits.
unfoldable pub unsigned_value : Scan → ℕ
unsigned_value s =
    if ltb ullong_max s.magnitude
    then ullong_max
    else (if s.negative then (2 ^ 64 - s.magnitude) % 2 ^ 64 else s.magnitude)

abbrev pub at_end : Text → Bool
at_end [] = true
at_end (c ∷ cs) = false

-- `get_env_uint32`, given what `getenv` returns.
pub get_env_uint32 : Option Text → ℕ → ℕ
unfolding unsigned_value
get_env_uint32 none default_value = default_value
get_env_uint32 (some text) default_value =
    let s = scan text in
    if not s.any || not (at_end s.rest) || ltb uint32_max (unsigned_value s)
    then default_value
    else unsigned_value s

-- `get_dds_domain_id`, given the value of ROS_DOMAIN_ID. `strtoll` saturates beyond 63 bits, which
-- is out of range all the same; a minus makes the value negative unless it is zero.
pub get_dds_domain_id : Option Text → ℕ
get_dds_domain_id none = 0
get_dds_domain_id (some text) =
    let s = scan text in
    if not s.any || not (at_end s.rest) || (s.negative && ltb 0 s.magnitude) || ltb 232 s.magnitude
    then 0
    else s.magnitude
