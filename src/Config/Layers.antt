-- ===== src/Config/Layers.antt =====
-- Which layer a setting comes from.
use rmw_robotops.Base.{
  ◌≡◌, refl, Bool, true, false, Option, none, some, [], ◌∷◌, arith, if◌then◌else◌,
}
use rmw_robotops.Text.{Text}
use rmw_robotops.Number.{get_env_uint32}
use rmw_robotops.Config.{
  Config, Key, absent, bad, has, Performance, Diagnostics, Tracing, Yaml, Outcome, going, visit,
  apply_diagnostics, apply_performance, apply_tracing, apply_yaml_config, Env, Files,
  get_env_or_default, get_env_bool, is_true_text, is_false_text, tracing_enabled_name,
  underlying_rmw_name, failure_threshold_name, diagnostics_enabled_name, interval_secs_name,
  config_path_name, system_config_path, apply_env_overrides, bool_value, text_value, apply_document,
  apply_file, apply_custom, load_config,
}

-- The value of a key, or the one from the layer below.
abbrev pub pick {ℓ} : {A : Type ℓ} → Key A → A → A
pick absent below = below
pick bad below = below
pick (has a) below = a

-- A key under a node that may be missing.
abbrev pub inside {ℓ κ} : {A : Type ℓ} {B : Type κ} → Key A → (A → Key B) → Key B
inside absent f = absent
inside bad f = absent
inside (has a) f = f a

-- The key converts, and so does what is under it.
abbrev pub Good {ℓ} : {A : Type ℓ} → Key A → (A → Type 0) → Type 0
Good absent P = Unit
Good bad P = ⊥
Good (has a) P = P a

abbrev pub Converts {ℓ} : {A : Type ℓ} → Key A → Type 0
Converts k = Good k (λ a. Unit)

abbrev pub IsClean : Yaml → Type 0
IsClean y =
    Converts y.schema_version
    × Good y.tracing (λ t.
      Converts t.enabled
      × Converts t.underlying_rmw
      × Good t.performance (λ p. Converts p.failure_threshold)
      × Good t.diagnostics (λ d. Converts d.enabled × Converts d.interval_secs))

-- A document laid over a configuration, each field by itself.
abbrev pub lay : Yaml → Config → Config
lay y c = record {
  schema_version = pick y.schema_version c.schema_version;
  enabled = pick (inside y.tracing (λ t. t.enabled)) c.enabled;
  underlying_rmw = pick (inside y.tracing (λ t. t.underlying_rmw)) c.underlying_rmw;
  failure_threshold =
      pick (inside (inside y.tracing (λ t. t.performance)) (λ p. p.failure_threshold))
        c.failure_threshold;
  diagnostics_enabled =
      pick (inside (inside y.tracing (λ t. t.diagnostics)) (λ d. d.enabled)) c.diagnostics_enabled;
  interval_secs =
      pick (inside (inside y.tracing (λ t. t.diagnostics)) (λ d. d.interval_secs)) c.interval_secs;
}

apply_diagnostics_lem :
    (k : Key Diagnostics) (c : Config)
    → Good k (λ d. Converts d.enabled × Converts d.interval_secs)
    → visit k apply_diagnostics c
      ≡ going (record c {
        diagnostics_enabled = pick (inside k (λ d. d.enabled)) c.diagnostics_enabled;
        interval_secs = pick (inside k (λ d. d.interval_secs)) c.interval_secs;
      })
unfolding visit apply_diagnostics
apply_diagnostics_lem absent c h = refl
apply_diagnostics_lem bad c h = absurd h
apply_diagnostics_lem (has d) c h = ground arith

apply_performance_lem :
    (k : Key Performance) (c : Config)
    → Good k (λ p. Converts p.failure_threshold)
    → visit k apply_performance c
      ≡ going (record c {
        failure_threshold = pick (inside k (λ p. p.failure_threshold)) c.failure_threshold;
      })
unfolding visit apply_performance
apply_performance_lem absent c h = refl
apply_performance_lem bad c h = absurd h
apply_performance_lem (has p) c h = ground arith

visit_has {ℓ} :
    {A : Type ℓ} (a : A) (f : A → Config → Outcome) (c : Config) → visit (has a) f c ≡ f a c
unfolding visit
visit_has a f c = refl

visit_enabled :
    (k : Key Bool) (c : Config)
    → Converts k
    → visit k (λ v c. going (record c { enabled = v })) c
      ≡ going (record c { enabled = pick k c.enabled })
unfolding visit
visit_enabled absent c h = refl
visit_enabled bad c h = absurd h
visit_enabled (has v) c h = refl

visit_underlying :
    (k : Key Text) (c : Config)
    → Converts k
    → visit k (λ v c. going (record c { underlying_rmw = v })) c
      ≡ going (record c { underlying_rmw = pick k c.underlying_rmw })
unfolding visit
visit_underlying absent c h = refl
visit_underlying bad c h = absurd h
visit_underlying (has v) c h = refl

visit_schema :
    (k : Key Text) (c : Config)
    → Converts k
    → visit k (λ v c. going (record c { schema_version = v })) c
      ≡ going (record c { schema_version = pick k c.schema_version })
unfolding visit
visit_schema absent c h = refl
visit_schema bad c h = absurd h
visit_schema (has v) c h = refl

apply_tracing_lem :
    (k : Key Tracing) (c : Config)
    → Good k (λ t.
      Converts t.enabled
      × Converts t.underlying_rmw
      × Good t.performance (λ p. Converts p.failure_threshold)
      × Good t.diagnostics (λ d. Converts d.enabled × Converts d.interval_secs))
    → visit k apply_tracing c ≡ going (lay (record { schema_version = absent; tracing = k }) c)
apply_tracing_lem absent c h = unfold visit in refl
apply_tracing_lem bad c h = absurd h
apply_tracing_lem (has t) c h =
    let a = record c { enabled = pick t.enabled c.enabled } in
    let b = record a { underlying_rmw = pick t.underlying_rmw c.underlying_rmw } in
    let p = record b {
      failure_threshold =
          pick (inside t.performance (λ p. p.failure_threshold)) c.failure_threshold;
    } in
    unfold apply_tracing in
    rw (
      visit_has t apply_tracing c,
      visit_enabled t.enabled c h.0,
      visit_underlying t.underlying_rmw a h.1,
      apply_performance_lem t.performance b h.2,
      apply_diagnostics_lem t.diagnostics p h.3,
    )

-- A document all of whose keys convert sets exactly the fields that it names.
pub apply_yaml_config_lem : (c : Config) (y : Yaml) → IsClean y → apply_yaml_config c y ≡ lay y c
unfolding apply_yaml_config
apply_yaml_config_lem c y h = rw (
  visit_schema y.schema_version c h.0,
  apply_tracing_lem y.tracing (record c { schema_version = pick y.schema_version c.schema_version })
      h.1,
)

-- What the text of a switch in the environment says, if anything.
abbrev pub switch_text : Option Text → Option Bool
switch_text none = none
switch_text (some v) =
    if is_true_text v then some true else (if is_false_text v then some false else none)

abbrev pub or_else {ℓ} : {A : Type ℓ} → Option A → A → A
or_else none below = below
or_else (some a) below = a

choice :
    (yes_text no_text d : Bool)
    → (if yes_text then true else (if no_text then false else d))
      ≡ or_else (if yes_text then some true else (if no_text then some false else none)) d
choice true no_text d = refl
choice false true d = refl
choice false false d = refl

bool_value_lem : (v : Option Text) (d : Bool) → bool_value v d ≡ or_else (switch_text v) d
unfolding bool_value
bool_value_lem none d = refl
bool_value_lem (some v) d = choice (is_true_text v) (is_false_text v) d

text_value_lem : (v : Option Text) (d : Text) → text_value v d ≡ or_else v d
unfolding text_value
text_value_lem none d = refl
text_value_lem (some v) d = refl

abbrev pub lay_file : Option Yaml → Config → Config
lay_file none c = c
lay_file (some y) c = lay y c

-- The custom document: that of a path which is set and not empty.
abbrev pub custom_file : Files → Option Text → Option Yaml
custom_file files none = none
custom_file files (some []) = none
custom_file files (some (c ∷ cs)) = files (c ∷ cs)

-- The precedence that the loader promises: environment, custom file, system file, defaults.
abbrev pub layered : Config → Option Yaml → Option Yaml → Env → Config
layered defaults system custom env =
    let c = lay_file custom (lay_file system defaults) in
    record {
      schema_version = c.schema_version;
      enabled = or_else (switch_text (env tracing_enabled_name)) c.enabled;
      underlying_rmw = or_else (env underlying_rmw_name) c.underlying_rmw;
      failure_threshold = get_env_uint32 (env failure_threshold_name) c.failure_threshold;
      diagnostics_enabled =
          or_else (switch_text (env diagnostics_enabled_name)) c.diagnostics_enabled;
      interval_secs = get_env_uint32 (env interval_secs_name) c.interval_secs;
    }

document_lem :
    (document : Option Yaml) (c : Config)
    → ((y : Yaml) → document ≡ some y → IsClean y)
    → apply_document document c ≡ lay_file document c
unfolding apply_document
document_lem none c clean = refl
document_lem (some y) c clean = apply_yaml_config_lem c y (clean y refl)

apply_file_lem :
    (files : Files) (path : Text) (c : Config)
    → ((path : Text) (y : Yaml) → files path ≡ some y → IsClean y)
    → apply_file files path c ≡ lay_file (files path) c
unfolding apply_file
apply_file_lem files path c clean = document_lem (files path) c (clean path)

env_lem : (env : Env) (c : Config) → apply_env_overrides env c ≡ layered c none none env
unfolding apply_env_overrides get_env_bool get_env_or_default
env_lem env c = λ i. record {
  schema_version = c.schema_version;
  enabled = bool_value_lem (env tracing_enabled_name) c.enabled i;
  underlying_rmw = text_value_lem (env underlying_rmw_name) c.underlying_rmw i;
  failure_threshold = get_env_uint32 (env failure_threshold_name) c.failure_threshold;
  diagnostics_enabled = bool_value_lem (env diagnostics_enabled_name) c.diagnostics_enabled i;
  interval_secs = get_env_uint32 (env interval_secs_name) c.interval_secs;
}

apply_custom_lem :
    (files : Files) (path : Option Text) (c : Config)
    → ((path : Text) (y : Yaml) → files path ≡ some y → IsClean y)
    → apply_custom files path c ≡ lay_file (custom_file files path) c
unfolding apply_custom
apply_custom_lem files none c clean = refl
apply_custom_lem files (some []) c clean = refl
apply_custom_lem files (some (x ∷ xs)) c clean = apply_file_lem files (x ∷ xs) c clean

-- If the defaults are there and every file that loads has only keys that convert, each setting comes
-- from the environment where it holds a valid value, else from the custom file, else from the system
-- file, else from the defaults; the schema version has no variable.
pub load_config-layered :
    (defaults : Config) (files : Files) (env : Env)
    → ((path : Text) (y : Yaml) → files path ≡ some y → IsClean y)
    → load_config (some defaults) files env
      ≡ layered defaults (files system_config_path) (custom_file files (env config_path_name)) env
unfolding load_config
load_config-layered defaults files env clean =
    rw
      (
        apply_file_lem files system_config_path defaults clean,
        apply_custom_lem files (env config_path_name) (lay_file (files system_config_path) defaults)
            clean,
      )
      (env_lem env (
        lay_file (custom_file files (env config_path_name))
          (lay_file (files system_config_path) defaults)))
