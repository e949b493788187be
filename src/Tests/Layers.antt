-- ===== src/Tests/Layers.antt =====
-- The theorems on the content hash, the configuration and plain topics, at concrete values.
use mathlib.Core.Path.{subst}
use rmw_robotops.Base.{
  Option, ℕ, ◌≡◌, ◌≢◌, refl, true, false, none, some, [], ◌∷◌, ◌++◌, arith, ◌==◌, if◌then◌else◌,
}
use rmw_robotops.Text.{Text}
use rmw_robotops.Topic.{
  bytes, ends_with, send_goal, cancel_goal, get_result, feedback, plain_event_type,
}
use rmw_robotops.Topic.Names.{ends_with_iff, detected, detect_plain_topic}
use rmw_robotops.Tests.{constants}
use rmw_robotops.Hash.{
  Memory, Members, end, entry, member, Shape, uint8, int8, int16, uint32, string, other, null,
  points, compute_message_hash,
}
use rmw_robotops.Hash.Spec.{
  fnv1a, fnv1a_from, fnv1a_octet, bits, octets_at, value_octets, elements_in, place, array_octets,
  field_octets_with, message_octets, field_octets, nested_octets,
}
use rmw_robotops.Hash.Handled.{
  handled_only, keep_handled, handled_nested, compute_message_hash-handled_only,
}
use rmw_robotops.Hash.Sensitive.{one_byte_changes_hash}
use rmw_robotops.Config.{Config, absent, has, Yaml, load_config, Files, apply_yaml_config}
use rmw_robotops.Config.Layers.{IsClean, apply_yaml_config_lem, load_config-layered, layered, lay}

-- A memory that holds a number at every address, and a message of two bytes, its second field first.
abbrev filled : ℕ → Memory
filled n = record { byte = λ a. if a == 9 then n else 3; string_at = λ a. none }

abbrev single : Shape
single = record {
  is_array = false;
  array_size = 0;
  is_upper_bound = false;
  size_function = none;
  get_const_function = none;
}

abbrev two_bytes : Members
two_bytes = entry (member uint8 0 single null) (entry (member uint8 1 single null) end)

-- Two numbers, an array of two numbers without an accessor, a string, and a field of a type that is
-- left out.
abbrev pair_shape : Shape
pair_shape = record {
  is_array = true;
  array_size = 2;
  is_upper_bound = false;
  size_function = none;
  get_const_function = none;
}

abbrev mixed : Members
mixed = entry (member int16 2 single null) (
    entry (member other 6 single null) (
      entry (member uint32 0 pair_shape null)
        (entry (member string 1 single null) (entry (member int8 1 single null) end))))

abbrev mixed_handled : Members
mixed_handled = entry (member int16 2 single null) (
    entry (member uint32 0 pair_shape null)
      (entry (member string 1 single null) (entry (member int8 1 single null) end)))

abbrev written : ℕ → Memory
written n = record { byte = λ a. if a == 9 then n else a; string_at = λ a. some (b'h' ∷ b'i' ∷ []) }

octets_of_mixed :
    message_octets (written 1) mixed 8
    ≡ 10 ∷ 11 ∷ 8 ∷ 1 ∷ 10 ∷ 11 ∷ 12 ∷ 13 ∷ 14 ∷ 15 ∷ b'h' ∷ b'i' ∷ 1 ∷ []
unfolding message_octets field_octets nested_octets field_octets_with array_octets elements_in place
    value_octets octets_at bits
octets_of_mixed = refl

-- The values published with the definition of FNV-1a.
fnv1a_a : fnv1a (bytes "a") ≡ 12638187200555641996
unfolding fnv1a fnv1a_from fnv1a_octet
fnv1a_a = refl

fnv1a_foobar : fnv1a (bytes "foobar") ≡ 9625390261332436968
unfolding fnv1a fnv1a_from fnv1a_octet
fnv1a_foobar = refl

compute_message_hash-handled_only_example :
    compute_message_hash (written 1) 8 (points mixed)
    ≡ compute_message_hash (written 1) 8 (points mixed_handled)
unfolding handled_only keep_handled handled_nested
compute_message_hash-handled_only_example = compute_message_hash-handled_only (written 1) 8 mixed

one_byte_changes_hash_example :
    compute_message_hash (filled 1) 8 (points two_bytes)
    ≢ compute_message_hash (filled 2) 8 (points two_bytes)
unfolding message_octets field_octets nested_octets field_octets_with value_octets octets_at bits
one_byte_changes_hash_example =
    one_byte_changes_hash (filled 1) (filled 2) 8 8 two_bytes two_bytes (3 ∷ []) [] 1 2
      (λ e. omega arith) (λ e. omega arith) refl refl (omega arith) (omega arith) tt
      (λ e. omega arith)

not_action :
    (suffix : Text)
    → ends_with (some (bytes "/chatter")) (some suffix) ≡ false
    → (pre : Text) → bytes "/chatter" ≢ pre ++ suffix
not_action suffix h pre e = let yes = (ends_with_iff (bytes "/chatter") suffix).1 (pre, e) in cc

detect_plain_topic_example : detected constants.event_types true false (bytes "/chatter") ≡ 2
unfolding ends_with plain_event_type
detect_plain_topic_example =
    detect_plain_topic constants.event_types true false (bytes "/chatter")
      (not_action send_goal refl) (not_action cancel_goal refl) (not_action get_result refl)
      (not_action feedback refl)

abbrev defaults : Config
defaults = record {
  schema_version = bytes "1";
  enabled = true;
  underlying_rmw = bytes "rmw_fastrtps_cpp";
  failure_threshold = 10;
  diagnostics_enabled = true;
  interval_secs = 5;
}

abbrev document : Yaml
document = record {
  schema_version = has (bytes "2");
  tracing = has (record {
    enabled = has false;
    underlying_rmw = absent;
    performance = absent;
    diagnostics = absent;
  });
}

apply_yaml_config_lem_example : apply_yaml_config defaults document ≡ lay document defaults
apply_yaml_config_lem_example = apply_yaml_config_lem defaults document (tt, (tt, tt, tt, tt))

abbrev files : Files
files path = some document

abbrev IsCleanIfAny : Option Yaml → Type 0
IsCleanIfAny none = Unit
IsCleanIfAny (some y) = IsClean y

load_config-layered_example :
    load_config (some defaults) files (λ name. none)
    ≡ layered defaults (some document) none (λ name. none)
load_config-layered_example =
    load_config-layered defaults files (λ name. none)
      (λ path y e. subst IsCleanIfAny e (tt, (tt, tt, tt, tt)))
