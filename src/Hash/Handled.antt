-- ===== src/Hash/Handled.antt =====
-- What the hash of src/utils.cpp does not look at: the `default` cases of its switches.
use mathlib.Core.Path.{fun_ext}
use rmw_robotops.Base.{
  ℕ, zero, suc, ◌+◌, ◌≡◌, refl, sym, ap, ◌∙◌, Bool, true, false, Option, none, some, ◌==◌,
  if◌then◌else◌,
}
use rmw_robotops.Hash.{
  Memory, Shape, Members, Member, Nested, end, entry, member, null, points, other, mix_primitive,
  element_size, hash_value, element_count, element_address, hash_element, hash_elements,
  hash_field_with, hash_members, hash_field, hash_message_members, compute_message_hash,
  offset_basis,
}

-- The members without those of the types left out, in nested messages too.
unfoldable mutual
  pub handled_only : Members → Members
  handled_only end = end
  handled_only (entry m ms) = keep_handled m (handled_only ms)

  pub keep_handled : Member → Members → Members
  keep_handled (member other offset shape nested) ms = ms
  keep_handled (member type offset shape nested) ms =
      entry (member type offset shape (handled_nested nested)) ms

  pub handled_nested : Nested → Nested
  handled_nested null = null
  handled_nested (points ms) = points (handled_only ms)

hash_element-other :
    (memory : Memory) (descend : ℕ → ℕ → ℕ) (element : Option ℕ) (hash : ℕ)
    → hash_element memory other descend element hash ≡ hash
unfolding hash_element hash_value mix_primitive element_size
hash_element-other memory descend none hash = refl
hash_element-other memory descend (some address) hash = refl

hash_elements-other :
    (memory : Memory) (shape : Shape) (descend : ℕ → ℕ → ℕ) (address left j hash : ℕ)
    → hash_elements memory other shape descend address left j hash ≡ hash
unfolding hash_elements
hash_elements-other memory shape descend address zero j hash = refl
hash_elements-other memory shape descend address (suc left) j hash =
    hash_elements-other memory shape descend address left (j + 1) _
    ∙ hash_element-other memory descend (element_address memory other shape address j) hash

both : (b : Bool) (x y z : ℕ) → x ≡ z → y ≡ z → (if b then x else y) ≡ z
both true x y z p q = p
both false x y z p q = q

hash_field_with-other :
    (memory : Memory) (shape : Shape) (descend : ℕ → ℕ → ℕ) (address hash : ℕ)
    → hash_field_with memory other shape descend address hash ≡ hash
unfolding hash_field_with hash_value mix_primitive element_size
hash_field_with-other memory shape descend address hash =
    both shape.is_array _ _ hash
      (hash_elements-other memory shape descend address (element_count memory shape address) 0 hash)
      refl

mutual
  unfolding handled_only keep_handled handled_nested hash_members hash_field hash_message_members

  members_lem :
      (memory : Memory) (ms : Members) (address hash : ℕ)
      → hash_members memory (handled_only ms) address hash ≡ hash_members memory ms address hash
  members_lem memory end address hash = refl
  members_lem memory (entry m ms) address hash =
      field_lem memory m (handled_only ms) address hash
      ∙ members_lem memory ms address (hash_field memory m address hash)

  field_lem :
      (memory : Memory) (m : Member) (ms : Members) (address hash : ℕ)
      → hash_members memory (keep_handled m ms) address hash
        ≡ hash_members memory ms address (hash_field memory m address hash)
  field_lem memory (member other offset shape nested) ms address hash =
      ap (hash_members memory ms address) (
        sym (
          hash_field_with-other memory shape (hash_message_members memory nested) (address + offset)
            hash))
  field_lem memory (member type offset shape nested) ms address hash =
      ap
        (λ descend.
          hash_members memory ms address
            (hash_field_with memory type shape descend (address + offset) hash))
        (fun_ext (λ a. fun_ext (λ h. nested_lem memory nested a h)))

  nested_lem :
      (memory : Memory) (nested : Nested) (address hash : ℕ)
      → hash_message_members memory (handled_nested nested) address hash
        ≡ hash_message_members memory nested address hash
  nested_lem memory null address hash = refl
  nested_lem memory (points ms) address hash =
      ap (λ h. if address == 0 then hash else h) (members_lem memory ms address hash)

-- A field of a type that the switches leave to their `default` case, wherever it stands, in a nested
-- message or an array too, never counts: the hash of every message is that of the message read
-- without such fields.
pub compute_message_hash-handled_only :
    (memory : Memory) (ros_message : ℕ) (ms : Members)
    → compute_message_hash memory ros_message (points ms)
      ≡ compute_message_hash memory ros_message (points (handled_only ms))
unfolding compute_message_hash handled_nested
compute_message_hash-handled_only memory ros_message ms =
    ap (λ h. if ros_message == 0 then 0 else h)
      (sym (nested_lem memory (points ms) ros_message offset_basis))
