-- ===== src/Config.antt =====
-- src/config.cpp: the layered configuration. The environment, the YAML files and the package
-- defaults are not in the repository: they are arguments.
pub mod Layers
use rmw_robotops.Base.{ℕ, Bool, true, false, ◌||◌, Option, none, some, List, [], ◌∷◌, if◌then◌else◌}
use rmw_robotops.Text.{Text, same_text}
use rmw_robotops.Topic.{bytes}
use rmw_robotops.Number.{get_env_uint32}

-- The fields of the protobuf message that the source reads or writes. The two numbers are the bit
-- patterns of 32 bits, so that the casts between `int32_t` and `uint32_t` change nothing.
pub record Config : Type 0 where
  pub schema_version : Text
  pub enabled : Bool
  pub underlying_rmw : Text
  pub failure_threshold : ℕ
  pub diagnostics_enabled : Bool
  pub interval_secs : ℕ

-- A key of a YAML node: not there, there with something that the conversion throws on, or a value.
pub data Key {ℓ} (A : Type ℓ) : Type ℓ where
  absent : Key A
  bad : Key A
  has : A → Key A

pub record Performance : Type 0 where
  pub failure_threshold : Key ℕ

pub record Diagnostics : Type 0 where
  pub enabled : Key Bool
  pub interval_secs : Key ℕ

pub record Tracing : Type 0 where
  pub enabled : Key Bool
  pub underlying_rmw : Key Text
  pub performance : Key Performance
  pub diagnostics : Key Diagnostics

-- A document as far as the source looks into it.
pub record Yaml : Type 0 where
  pub schema_version : Key Text
  pub tracing : Key Tracing

-- An exception leaves behind what was set before it.
pub data Outcome : Type 0 where
  going : Config → Outcome
  threw : Config → Outcome

infixl 5 ◌>>=◌
abbrev pub ◌>>=◌ : Outcome → (Config → Outcome) → Outcome
going c >>= f = f c
threw c >>= f = threw c

unfoldable pub visit {ℓ} : {A : Type ℓ} → Key A → (A → Config → Outcome) → Config → Outcome
visit absent f c = going c
visit bad f c = threw c
visit (has a) f c = f a c

unfoldable pub apply_diagnostics : Diagnostics → Config → Outcome
apply_diagnostics node config = do
  c ← visit node.enabled (λ v c. going (record c { diagnostics_enabled = v })) config
  visit node.interval_secs (λ v c. going (record c { interval_secs = v })) c

unfoldable pub apply_performance : Performance → Config → Outcome
apply_performance node =
    visit node.failure_threshold (λ v c. going (record c { failure_threshold = v }))

unfoldable pub apply_tracing : Tracing → Config → Outcome
apply_tracing node config = do
  a ← visit node.enabled (λ v c. going (record c { enabled = v })) config
  b ← visit node.underlying_rmw (λ v c. going (record c { underlying_rmw = v })) a
  d ← visit node.performance apply_performance b
  visit node.diagnostics apply_diagnostics d

-- What the handler of the exceptions leaves.
abbrev pub settle : Outcome → Config
settle (going c) = c
settle (threw c) = c

unfoldable pub apply_yaml_config : Config → Yaml → Config
apply_yaml_config config yaml = settle (do
  c ← visit yaml.schema_version (λ v c. going (record c { schema_version = v })) config
  visit yaml.tracing apply_tracing c)

-- `getenv`.
abbrev pub Env : Type 0
Env = Text → Option Text

unfoldable pub text_value : Option Text → Text → Text
text_value none default_value = default_value
text_value (some value) default_value = value

unfoldable pub get_env_or_default : Env → Text → Text → Text
unfolding text_value
get_env_or_default env name default_value = text_value (env name) default_value

abbrev pub is_true_text : Text → Bool
is_true_text v =
    same_text v (bytes "1")
    || same_text v (bytes "true")
    || same_text v (bytes "TRUE")
    || same_text v (bytes "yes")
    || same_text v (bytes "YES")

abbrev pub is_false_text : Text → Bool
is_false_text v =
    same_text v (bytes "0")
    || same_text v (bytes "false")
    || same_text v (bytes "FALSE")
    || same_text v (bytes "no")
    || same_text v (bytes "NO")

unfoldable pub bool_value : Option Text → Bool → Bool
bool_value none default_value = default_value
bool_value (some value) default_value =
    if is_true_text value then true else (if is_false_text value then false else default_value)

unfoldable pub get_env_bool : Env → Text → Bool → Bool
unfolding bool_value
get_env_bool env name default_value = bool_value (env name) default_value

abbrev pub tracing_enabled_name : Text
tracing_enabled_name = bytes "ROBOTOPS_TRACING_ENABLED"

abbrev pub underlying_rmw_name : Text
underlying_rmw_name = bytes "ROBOTOPS_UNDERLYING_RMW"

abbrev pub failure_threshold_name : Text
failure_threshold_name = bytes "ROBOTOPS_FAILURE_THRESHOLD"

abbrev pub diagnostics_enabled_name : Text
diagnostics_enabled_name = bytes "ROBOTOPS_DIAGNOSTICS_ENABLED"

abbrev pub interval_secs_name : Text
interval_secs_name = bytes "ROBOTOPS_DIAGNOSTICS_INTERVAL_SECS"

abbrev pub config_path_name : Text
config_path_name = bytes "ROBOTOPS_CONFIG_PATH"

abbrev pub system_config_path : Text
system_config_path = bytes "/etc/robotops/config.yaml"

unfoldable pub apply_env_overrides : Env → Config → Config
apply_env_overrides env config = record {
  schema_version = config.schema_version;
  enabled = get_env_bool env tracing_enabled_name config.enabled;
  underlying_rmw = get_env_or_default env underlying_rmw_name config.underlying_rmw;
  failure_threshold = get_env_uint32 (env failure_threshold_name) config.failure_threshold;
  diagnostics_enabled = get_env_bool env diagnostics_enabled_name config.diagnostics_enabled;
  interval_secs = get_env_uint32 (env interval_secs_name) config.interval_secs;
}

-- `load_yaml_file`: no document if the file is not there or does not parse.
abbrev pub Files : Type 0
Files = Text → Option Yaml

unfoldable pub apply_document : Option Yaml → Config → Config
apply_document none config = config
apply_document (some yaml) config = apply_yaml_config config yaml

unfoldable pub apply_file : Files → Text → Config → Config
unfolding apply_document
apply_file files path config = apply_document (files path) config

-- The custom file is read only for a path that is set and not empty.
unfoldable pub apply_custom : Files → Option Text → Config → Config
apply_custom files none config = config
apply_custom files (some []) config = config
apply_custom files (some (c ∷ cs)) config = apply_file files (c ∷ cs) config

-- Fields that the fallback does not set have the zero values of protobuf.
abbrev pub fallback_config : Config
fallback_config = record {
  schema_version = bytes "1.0.0";
  enabled = true;
  underlying_rmw = bytes "rmw_fastrtps_cpp";
  failure_threshold = 100;
  diagnostics_enabled = false;
  interval_secs = 0;
}

-- `CreateDefaultConfig` is the argument `defaults`, `none` if it throws.
unfoldable pub load_config : Option Config → Files → Env → Config
load_config none files env = fallback_config
load_config (some defaults) files env =
    let system = apply_file files system_config_path defaults in
    let custom = apply_custom files (env config_path_name) system in apply_env_overrides env custom

-- The getters of include/rmw_robotops/config.hpp, for the configuration that was loaded.
abbrev pub get_underlying_rmw : Config → Text
get_underlying_rmw config = config.underlying_rmw

abbrev pub is_diagnostics_enabled : Config → Bool
is_diagnostics_enabled config = config.diagnostics_enabled

abbrev pub get_diagnostics_interval_secs : Config → ℕ
get_diagnostics_interval_secs config = config.interval_secs
