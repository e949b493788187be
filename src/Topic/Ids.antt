-- ===== src/Topic/Ids.antt =====
-- The publisher GID as text.
use rmw_robotops.Base.{ℕ, ◌+◌, ◌*◌, ◌/◌, ◌%◌, ◌<◌, ◌≡◌, refl, ap, List, [], ◌∷◌, arith, length, All}
use rmw_robotops.SpanId.Hex.{hex_digit, hex_digit-hex_char}
use rmw_robotops.Text.{Text}
use rmw_robotops.Topic.{gid_to_hex_string}

-- The bytes that a hex text stands for, two digits each.
abbrev pub bytes_of_hex : Text → List ℕ
bytes_of_hex [] = []
bytes_of_hex (c ∷ []) = []
bytes_of_hex (c ∷ d ∷ cs) = (hex_digit c * 16 + hex_digit d) ∷ bytes_of_hex cs

-- The text of any bytes has two digits for each byte, and reads back as the bytes.
pub gid_to_hex_string_lem :
    (gid : List ℕ)
    → All (λ b. b < 256) gid
    → (length (gid_to_hex_string gid) ≡ 2 * length gid)
      × (bytes_of_hex (gid_to_hex_string gid) ≡ gid)
unfolding gid_to_hex_string
gid_to_hex_string_lem [] h = (refl, refl)
gid_to_hex_string_lem (b ∷ gid) h =
    let rest = gid_to_hex_string_lem gid h.1 in
    (
      omega (arith, rest.0),
      rw
          (
            hex_digit-hex_char (b / 16) (omega (arith, h.0)),
            hex_digit-hex_char (b % 16) (omega arith),
            rest.1,
          )
          (ap (λ (n : ℕ). n ∷ gid) (omega arith)),
    )
