-- ===== src/Hash.antt =====
-- src/utils.cpp: the content hash of a message, by a walk over its introspection members. The memory
-- and the accessors of sequences belong to the process and to rosidl: they are arguments.
pub mod Spec
pub mod Content
pub mod Sensitive
pub mod Handled
use Prim.Native.Nat.{bit_xor}
use rmw_robotops.Base.{
  ℕ, zero, suc, ◌+◌, ◌*◌, ◌%◌, ◌^◌, Bool, true, false, ◌&&◌, not, Option, none, some, List, [], ◌∷◌,
  ltb, ◌==◌, if◌then◌else◌,
}
use rmw_robotops.Text.{Text}

-- Bytes by address, and what stands behind the `data` pointer of the `rosidl_runtime_c__String` at
-- an address (`none` for a null pointer). Address 0 is `nullptr`.
pub record Memory : Type 0 where
  pub byte : ℕ → ℕ
  pub string_at : ℕ → Option Text

-- The `ROS_TYPE_*` constants that the source tests for; `other` stands for all the rest.
pub data TypeId : Type 0 where
  bool byte uint8 int8 uint16 int16 uint32 int32 float uint64 int64 double string message other :
      TypeId

-- The array side of a member. The functions are those of the generated type support.
pub record Shape : Type 0 where
  pub is_array : Bool
  pub array_size : ℕ
  pub is_upper_bound : Bool
  pub size_function : Option (Memory → ℕ → ℕ)
  pub get_const_function : Option (Memory → ℕ → ℕ → ℕ)

-- `MessageMembers`, its entries, and a pointer to one which may be null.
mutual
  pub data Members : Type 0 where
    end : Members
    entry : Member → Members → Members

  pub data Member : Type 0 where
    member : TypeId → ℕ → Shape → Nested → Member

  pub data Nested : Type 0 where
    null : Nested
    points : Members → Nested

abbrev pub prime : ℕ
prime = 1099511628211

abbrev pub offset_basis : ℕ
offset_basis = 14695981039346656037

-- `hash ^= b; hash *= prime` on `uint64_t`.
unfoldable pub mix : ℕ → ℕ → ℕ
mix hash b = (bit_xor hash b * prime) % 2 ^ 64

pub mix_text : Text → ℕ → ℕ
mix_text [] hash = hash
mix_text (b ∷ bs) hash = mix_text bs (mix hash b)

-- The loop over the `size` bytes at `address`.
pub mix_bytes : Memory → ℕ → ℕ → ℕ → ℕ
mix_bytes memory address zero hash = hash
mix_bytes memory address (suc size) hash =
    mix_bytes memory (address + 1) size (mix hash (memory.byte address))

-- Both switches on the type: the size of a primitive, or none.
unfoldable pub element_size : TypeId → Option ℕ
element_size bool = some 1
element_size byte = some 1
element_size uint8 = some 1
element_size int8 = some 1
element_size uint16 = some 2
element_size int16 = some 2
element_size uint32 = some 4
element_size int32 = some 4
element_size float = some 4
element_size uint64 = some 8
element_size int64 = some 8
element_size double = some 8
element_size string = none
element_size message = none
element_size other = none

mix_string : Option Text → ℕ → ℕ
mix_string none hash = hash
mix_string (some text) hash = mix_text text hash

mix_primitive : Memory → Option ℕ → ℕ → ℕ → ℕ
mix_primitive memory none address hash = hash
mix_primitive memory (some size) address hash = mix_bytes memory address size hash

-- One value at an address; `descend` walks a nested message.
pub hash_value : Memory → TypeId → (ℕ → ℕ → ℕ) → ℕ → ℕ → ℕ
unfolding mix_string mix_primitive element_size
hash_value memory string descend address hash = mix_string (memory.string_at address) hash
hash_value memory message descend address hash = descend address hash
hash_value memory type descend address hash = mix_primitive memory (element_size type) address hash

pub is_fixed : Shape → Bool
is_fixed shape = ltb 0 shape.array_size && not shape.is_upper_bound

sequence_size : Memory → Option (Memory → ℕ → ℕ) → ℕ → ℕ
sequence_size memory none address = 0
sequence_size memory (some size) address = size memory address

pub element_count : Memory → Shape → ℕ → ℕ
unfolding sequence_size is_fixed
element_count memory shape address =
    if is_fixed shape then shape.array_size else sequence_size memory shape.size_function address

-- A null element is skipped, and so is one of a fixed array whose size is not known.
non_null : ℕ → Option ℕ
non_null address = if address == 0 then none else some address

in_fixed_array : Bool → Option ℕ → ℕ → ℕ → Option ℕ
unfolding non_null
in_fixed_array fixed none address j = none
in_fixed_array fixed (some size) address j = if fixed then non_null (address + j * size) else none

element_by : Memory → Option (Memory → ℕ → ℕ → ℕ) → Bool → Option ℕ → ℕ → ℕ → Option ℕ
unfolding in_fixed_array non_null
element_by memory none fixed size address j = in_fixed_array fixed size address j
element_by memory (some get) fixed size address j = non_null (get memory address j)

pub element_address : Memory → TypeId → Shape → ℕ → ℕ → Option ℕ
unfolding element_by is_fixed element_size
element_address memory type shape address j =
    element_by memory shape.get_const_function (is_fixed shape) (element_size type) address j

hash_element : Memory → TypeId → (ℕ → ℕ → ℕ) → Option ℕ → ℕ → ℕ
hash_element memory type descend none hash = hash
hash_element memory type descend (some address) hash = hash_value memory type descend address hash

-- The loop over the elements from index `j` on, with `left` still to come.
pub hash_elements : Memory → TypeId → Shape → (ℕ → ℕ → ℕ) → ℕ → ℕ → ℕ → ℕ → ℕ
unfolding hash_element
hash_elements memory type shape descend address zero j hash = hash
hash_elements memory type shape descend address (suc left) j hash =
    hash_elements memory type shape descend address left (j + 1)
      (hash_element memory type descend (element_address memory type shape address j) hash)

pub hash_field_with : Memory → TypeId → Shape → (ℕ → ℕ → ℕ) → ℕ → ℕ → ℕ
hash_field_with memory type shape descend address hash =
    if shape.is_array
    then hash_elements memory type shape descend address (element_count memory shape address) 0 hash
    else hash_value memory type descend address hash

unfoldable mutual
  pub hash_members : Memory → Members → ℕ → ℕ → ℕ
  hash_members memory end address hash = hash
  hash_members memory (entry m ms) address hash =
      hash_members memory ms address (hash_field memory m address hash)

  pub hash_field : Memory → Member → ℕ → ℕ → ℕ
  hash_field memory (member type offset shape nested) address hash =
      hash_field_with memory type shape (hash_message_members memory nested) (address + offset) hash

  pub hash_message_members : Memory → Nested → ℕ → ℕ → ℕ
  hash_message_members memory null address hash = hash
  hash_message_members memory (points ms) address hash =
      if address == 0 then hash else hash_members memory ms address hash

-- A hash of 0 says that none was computed.
pub compute_message_hash : Memory → ℕ → Nested → ℕ
compute_message_hash memory ros_message null = 0
compute_message_hash memory ros_message (points ms) =
    if ros_message == 0 then 0 else hash_message_members memory (points ms) ros_message offset_basis
