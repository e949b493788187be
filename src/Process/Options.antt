-- ===== src/Process/Options.antt =====
-- The init options of src/rmw_init.cpp. The options are addresses, but for the ones that are returned.
pub mod Errors
use rmw_robotops.Base.{ℕ, not, ◌==◌, if◌then◌else◌}
use rmw_robotops.Text.{Text}
use rmw_robotops.Topic.{bytes}
use rmw_robotops.World.{Constants}
use rmw_robotops.Loader.{zero_options_name, options_init_name, options_copy_name, options_fini_name}
use rmw_robotops.Process.{Platform, Process}
use rmw_robotops.Process.Init.{load}

-- `rmw_init_options_t`; pointers are addresses, and an allocator and a set of security options are the
-- numbers of theirs.
pub record InitOptions : Type 0 where
  pub instance_id : ℕ
  pub implementation_identifier : Text
  pub allocator : ℕ
  pub impl : ℕ
  pub enclave : ℕ
  pub domain_id : ℕ
  pub security_options : ℕ
  pub localhost_only : ℕ

-- What the code at an address does, and the defaults of `rmw` and `rcutils`.
pub record OptionCalls (U : Type 0) : Type 0 where
  pub zero_options : ℕ → InitOptions
  pub options_init : ℕ → ℕ → ℕ → U → ℕ × U
  pub options_copy : ℕ → ℕ → ℕ → U → ℕ × U
  pub options_fini : ℕ → ℕ → U → ℕ × U
  pub default_allocator : ℕ
  pub default_domain_id : ℕ
  pub zero_security_options : ℕ
  pub localhost_only_default : ℕ

abbrev pub rmw_get_implementation_identifier : Text
rmw_get_implementation_identifier = bytes "rmw_robotops"

module _ {U F : Type 0} (k : Constants) (e : Platform U F) (calls : OptionCalls U) where
  pub rmw_get_zero_initialized_init_options : Process U → InitOptions × Process U
  rmw_get_zero_initialized_init_options p =
      let p' = if p.loader.lib == 0 then (load k e p).1 else p in
      let address = p'.loader.pointers zero_options_name in
      let fallback : InitOptions = record {
        instance_id = 0;
        implementation_identifier = rmw_get_implementation_identifier;
        allocator = calls.default_allocator;
        impl = 0;
        enclave = 0;
        domain_id = calls.default_domain_id;
        security_options = calls.zero_security_options;
        localhost_only = calls.localhost_only_default;
      } in
      (if not (address == 0) then calls.zero_options address else fallback, p')

  -- A call behind the test of its pointer.
  pub through_pointer : Text → (ℕ → U → ℕ × U) → Process U → ℕ × Process U
  through_pointer name call p =
      let address = p.loader.pointers name in
      let (ret, u) = call address p.world.outside in
      if address == 0
      then (k.ret_error, p)
      else (ret, record p { world = record (p.world) { outside = u } })

  -- The same with the library loaded first.
  pub through_library : Text → (ℕ → U → ℕ × U) → Process U → ℕ × Process U
  through_library name call p =
      if p.loader.lib == 0
      then (let (done, p') = load k e p in
          if not done then (k.ret_error, p') else through_pointer name call p')
      else through_pointer name call p

  pub rmw_init_options_init : ℕ → ℕ → Process U → ℕ × Process U
  rmw_init_options_init init_options allocator =
      through_library options_init_name (λ a. calls.options_init a init_options allocator)

  pub rmw_init_options_copy : ℕ → ℕ → Process U → ℕ × Process U
  rmw_init_options_copy src dst =
      through_library options_copy_name (λ a. calls.options_copy a src dst)

  pub rmw_init_options_fini : ℕ → Process U → ℕ × Process U
  rmw_init_options_fini init_options p =
      if p.loader.lib == 0
      then (k.ret_ok, p)
      else through_pointer options_fini_name (λ a. calls.options_fini a init_options) p
