-- ===== src/Hash/Spec.antt =====
-- What the hash of src/utils.cpp is meant to be, written without its code: FNV-1a as its authors
-- define it, and the bytes of a message by the widths of the ROS 2 types.
use Prim.Native.Nat.{bit_xor}
use rmw_robotops.Base.{
  ℕ, zero, suc, ◌+◌, ◌*◌, ◌/◌, ◌%◌, ◌^◌, ◌||◌, none, some, [], ◌∷◌, ◌++◌, ◌==◌, if◌then◌else◌,
}
use rmw_robotops.Text.{Text}
use rmw_robotops.Hash.{
  Memory, TypeId, Shape, Members, Member, Nested, end, entry, member, null, points,
}
use rmw_robotops.Hash.TypeId.{
  bool, byte, uint8, int8, uint16, int16, uint32, int32, float, uint64, int64, double, string,
  message, other,
}

-- One octet of the 64-bit FNV-1a: first the exclusive or, then the product with the FNV prime.
unfoldable pub fnv1a_octet : ℕ → ℕ → ℕ
fnv1a_octet hash octet = (bit_xor hash octet * (2 ^ 40 + 2 ^ 8 + 179)) % 18446744073709551616

unfoldable pub fnv1a_from : ℕ → Text → ℕ
fnv1a_from hash [] = hash
fnv1a_from hash (octet ∷ octets) = fnv1a_from (fnv1a_octet hash octet) octets

unfoldable pub fnv1a : Text → ℕ
fnv1a octets = fnv1a_from 14695981039346656037 octets

-- The widths in bits. Strings and messages have none; `other` stands for the types that the walk
-- leaves out (among them wide strings, wide characters and long doubles).
unfoldable pub bits : TypeId → ℕ
bits bool = 8
bits byte = 8
bits uint8 = 8
bits int8 = 8
bits uint16 = 16
bits int16 = 16
bits uint32 = 32
bits int32 = 32
bits float = 32
bits uint64 = 64
bits int64 = 64
bits double = 64
bits string = 0
bits message = 0
bits other = 0

unfoldable pub octets_at : Memory → ℕ → ℕ → Text
octets_at memory address zero = []
octets_at memory address (suc n) = memory.byte address ∷ octets_at memory (address + 1) n

-- The octets of one value: those of the text of a string, those of a message, or as many as the type
-- is wide.
unfoldable pub value_octets : Memory → TypeId → (ℕ → Text) → ℕ → Text
value_octets memory string inner address = elim (memory.string_at address) [
  | none ↦ []
  | some text ↦ text
]
value_octets memory message inner address = inner address
value_octets memory type inner address = octets_at memory address (bits type / 8)

-- How many elements an array has: a length that is a bound counts for nothing, the sequence is asked.
unfoldable pub elements_in : Memory → Shape → ℕ → ℕ
elements_in memory shape address =
    if (shape.array_size == 0) || shape.is_upper_bound
    then elim shape.size_function [ none ↦ 0 | some count ↦ count memory address ]
    else shape.array_size

-- Where element `j` stands: where the generated accessor says, or, without one, side by side in an
-- array of fixed length and width. 0 is nowhere.
unfoldable pub place : Memory → TypeId → Shape → ℕ → ℕ → ℕ
place memory type shape address j = elim shape.get_const_function [
  | some get ↦ get memory address j
  | none ↦
      if (bits type == 0) || (shape.array_size == 0) || shape.is_upper_bound
      then 0
      else address + j * (bits type / 8)
]

unfoldable pub array_octets : Memory → TypeId → Shape → (ℕ → Text) → ℕ → ℕ → ℕ → Text
array_octets memory type shape inner address zero j = []
array_octets memory type shape inner address (suc left) j =
    let at = place memory type shape address j in
    (if at == 0 then [] else value_octets memory type inner at)
    ++ array_octets memory type shape inner address left (j + 1)

unfoldable pub field_octets_with : Memory → TypeId → Shape → (ℕ → Text) → ℕ → Text
field_octets_with memory type shape inner address =
    if shape.is_array
    then array_octets memory type shape inner address (elements_in memory shape address) 0
    else value_octets memory type inner address

-- The octets of the fields of a message in their order, but for fields of the types left out.
unfoldable mutual
  pub message_octets : Memory → Members → ℕ → Text
  message_octets memory end address = []
  message_octets memory (entry m ms) address =
      field_octets memory m address ++ message_octets memory ms address

  pub field_octets : Memory → Member → ℕ → Text
  field_octets memory (member type offset shape nested) address =
      field_octets_with memory type shape (nested_octets memory nested) (address + offset)

  pub nested_octets : Memory → Nested → ℕ → Text
  nested_octets memory null address = []
  nested_octets memory (points ms) address =
      if address == 0 then [] else message_octets memory ms address
