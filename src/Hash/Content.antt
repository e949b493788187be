-- ===== src/Hash/Content.antt =====
-- The hash of src/utils.cpp against its description in Hash/Spec.
use rmw_robotops.Base.{
  ℕ, zero, suc, ◌+◌, ◌/◌, ◌≡◌, refl, sym, ap, ◌∙◌, Bool, true, false, Option, none, some, [], ◌∷◌,
  ◌++◌, ◌==◌, if◌then◌else◌, ◌≢◌, ne→==, arith,
}
use rmw_robotops.Text.{Text}
use rmw_robotops.Hash.{
  Memory, TypeId, Shape, Members, Member, Nested, end, entry, member, null, points, mix, mix_text,
  mix_bytes, mix_string, mix_primitive, element_size, hash_value, is_fixed, sequence_size,
  element_count, non_null, in_fixed_array, element_by, element_address, hash_element, hash_elements,
  hash_field_with, hash_members, hash_field, hash_message_members, compute_message_hash,
}
use rmw_robotops.Hash.TypeId.{
  bool, byte, uint8, int8, uint16, int16, uint32, int32, float, uint64, int64, double, string,
  message, other,
}
use rmw_robotops.Hash.Spec.{
  fnv1a_octet, fnv1a_from, fnv1a, bits, octets_at, value_octets, elements_in, place, array_octets,
  field_octets_with, message_octets, field_octets, nested_octets,
}

pub fnv1a_from-append :
    (xs ys : Text) (hash : ℕ) → fnv1a_from hash (xs ++ ys) ≡ fnv1a_from (fnv1a_from hash xs) ys
unfolding fnv1a_from
fnv1a_from-append [] ys hash = refl
fnv1a_from-append (x ∷ xs) ys hash = fnv1a_from-append xs ys (fnv1a_octet hash x)

mix_text_lem : (text : Text) (hash : ℕ) → mix_text text hash ≡ fnv1a_from hash text
unfolding mix_text mix fnv1a_from fnv1a_octet
mix_text_lem [] hash = refl
mix_text_lem (b ∷ bs) hash = mix_text_lem bs (fnv1a_octet hash b)

mix_bytes_lem :
    (memory : Memory) (address size hash : ℕ)
    → mix_bytes memory address size hash ≡ fnv1a_from hash (octets_at memory address size)
unfolding mix_bytes mix octets_at fnv1a_from fnv1a_octet
mix_bytes_lem memory address zero hash = refl
mix_bytes_lem memory address (suc size) hash =
    mix_bytes_lem memory (address + 1) size (fnv1a_octet hash (memory.byte address))

-- The two switches of the code against the table of widths.
element_size_lem :
    (type : TypeId) → element_size type ≡ (if bits type == 0 then none else some (bits type / 8))
unfolding element_size bits
element_size_lem bool = refl
element_size_lem byte = refl
element_size_lem uint8 = refl
element_size_lem int8 = refl
element_size_lem uint16 = refl
element_size_lem int16 = refl
element_size_lem uint32 = refl
element_size_lem int32 = refl
element_size_lem float = refl
element_size_lem uint64 = refl
element_size_lem int64 = refl
element_size_lem double = refl
element_size_lem string = refl
element_size_lem message = refl
element_size_lem other = refl

element_count_lem :
    (memory : Memory) (shape : Shape) (address : ℕ)
    → element_count memory shape address ≡ elements_in memory shape address
unfolding element_count sequence_size is_fixed elements_in
element_count_lem memory shape address = ground arith

element_address_lem :
    (memory : Memory) (type : TypeId) (shape : Shape) (address j : ℕ)
    → element_address memory type shape address j ≡ non_null (place memory type shape address j)
unfolding element_address element_by in_fixed_array non_null is_fixed place
element_address_lem memory type shape address j = rw (element_size_lem type) (ground arith)

fnv1a_from_nil : (hash : ℕ) → hash ≡ fnv1a_from hash []
unfolding fnv1a_from
fnv1a_from_nil hash = refl

mix_string_lem :
    (text : Option Text) (hash : ℕ)
    → mix_string text hash ≡ fnv1a_from hash (elim text [ none ↦ [] | some t ↦ t ])
unfolding mix_string
mix_string_lem none hash = fnv1a_from_nil hash
mix_string_lem (some text) hash = mix_text_lem text hash

branches :
    (b : Bool) (g h : ℕ) (t u : Text) (hash : ℕ)
    → g ≡ fnv1a_from hash t
    → h ≡ fnv1a_from hash u
    → (if b then g else h) ≡ fnv1a_from hash (if b then t else u)
branches true g h t u hash p q = p
branches false g h t u hash p q = q

module _ (memory : Memory) (descend : ℕ → ℕ → ℕ) (inner : ℕ → Text)
    (agree : (address hash : ℕ) → descend address hash ≡ fnv1a_from hash (inner address)) where
  value_lem :
      (type : TypeId) (address hash : ℕ)
      → hash_value memory type descend address hash
        ≡ fnv1a_from hash (value_octets memory type inner address)
  unfolding hash_value mix_primitive element_size mix_bytes value_octets bits octets_at
  value_lem string address hash = mix_string_lem (memory.string_at address) hash
  value_lem message address hash = agree address hash
  value_lem type address hash = mix_bytes_lem memory address (bits type / 8) hash

  element_lem :
      (type : TypeId) (at hash : ℕ)
      → hash_element memory type descend (non_null at) hash
        ≡ fnv1a_from hash (if at == 0 then [] else value_octets memory type inner at)
  unfolding hash_element non_null
  element_lem type zero hash = fnv1a_from_nil hash
  element_lem type (suc n) hash =
      rw (ne→== (suc n) 0 (λ e. omega arith)) (value_lem type (suc n) hash)

  elements_lem :
      (type : TypeId) (shape : Shape) (address left j hash : ℕ)
      → hash_elements memory type shape descend address left j hash
        ≡ fnv1a_from hash (array_octets memory type shape inner address left j)
  unfolding hash_elements array_octets
  elements_lem type shape address zero j hash = fnv1a_from_nil hash
  elements_lem type shape address (suc left) j hash =
      let at = place memory type shape address j in
      rw
        (
          element_address_lem memory type shape address j,
          fnv1a_from-append (if at == 0 then [] else value_octets memory type inner at)
              (array_octets memory type shape inner address left (j + 1)) hash,
          ← element_lem type at hash,
        )
        (elements_lem type shape address left (j + 1)
          (hash_element memory type descend (non_null at) hash))

  field_with_lem :
      (type : TypeId) (shape : Shape) (address hash : ℕ)
      → hash_field_with memory type shape descend address hash
        ≡ fnv1a_from hash (field_octets_with memory type shape inner address)
  unfolding hash_field_with field_octets_with
  field_with_lem type shape address hash = rw (element_count_lem memory shape address) (
      branches shape.is_array _ _ _ _ hash
        (elements_lem type shape address (elements_in memory shape address) 0 hash)
        (value_lem type address hash))

mutual
  unfolding hash_members message_octets hash_field field_octets hash_message_members nested_octets

  members_lem :
      (memory : Memory) (ms : Members) (address hash : ℕ)
      → hash_members memory ms address hash ≡ fnv1a_from hash (message_octets memory ms address)
  members_lem memory end address hash = fnv1a_from_nil hash
  members_lem memory (entry m ms) address hash =
      members_lem memory ms address (hash_field memory m address hash)
      ∙ ap (λ h. fnv1a_from h (message_octets memory ms address)) (field_lem memory m address hash)
      ∙ sym (
          fnv1a_from-append (field_octets memory m address) (message_octets memory ms address) hash)

  field_lem :
      (memory : Memory) (m : Member) (address hash : ℕ)
      → hash_field memory m address hash ≡ fnv1a_from hash (field_octets memory m address)
  field_lem memory (member type offset shape nested) address hash =
      field_with_lem memory (hash_message_members memory nested) (nested_octets memory nested)
        (message_lem memory nested) type shape (address + offset) hash

  message_lem :
      (memory : Memory) (nested : Nested) (address hash : ℕ)
      → hash_message_members memory nested address hash
        ≡ fnv1a_from hash (nested_octets memory nested address)
  message_lem memory null address hash = fnv1a_from_nil hash
  message_lem memory (points ms) address hash =
      branches (address == 0) _ _ _ _ hash (fnv1a_from_nil hash)
        (members_lem memory ms address hash)

pub compute_message_hash_lem :
    (memory : Memory) (ros_message : ℕ) (ms : Members)
    → ros_message ≢ 0
    → compute_message_hash memory ros_message (points ms)
      ≡ fnv1a (message_octets memory ms ros_message)
unfolding compute_message_hash fnv1a nested_octets
compute_message_hash_lem memory ros_message ms h = rw (ne→== ros_message 0 h) (
    message_lem memory (points ms) ros_message 14695981039346656037
    ∙ rw (ne→== ros_message 0 h) refl)
