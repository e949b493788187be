-- ===== src/Loader.antt =====
-- The loading of the middleware in src/rmw_init.cpp. `dlopen`, `dlsym` and `dlclose` are arguments.
pub mod Complete
use rmw_robotops.Base.{ℕ, Bool, true, false, ◌&&◌, not, List, [], ◌∷◌, ◌++◌, ◌==◌, if◌then◌else◌}
use rmw_robotops.Text.{Text, fill, same_text}
use rmw_robotops.Topic.{bytes}
use rmw_robotops.Background.{
  Pointers, create_node_name, destroy_node_name, create_publisher_name, destroy_publisher_name,
}

-- The dynamic linker: a handle or an address is 0 for a null pointer.
pub record Linker (U : Type 0) : Type 0 where
  pub dlopen : Text → U → ℕ × U
  pub dlsym : ℕ → Text → ℕ
  pub dlclose : ℕ → U → U

-- `underlying_rmw_lib` and the pointers declared beside it.
pub record Loader : Type 0 where
  pub lib : ℕ
  pub pointers : Pointers

abbrev pub unloaded : Loader
unloaded = record { lib = 0; pointers = λ name. 0 }

abbrev pub publish_name : Text
publish_name = bytes "rmw_publish"

abbrev pub init_name : Text
init_name = bytes "rmw_init"

abbrev pub shutdown_name : Text
shutdown_name = bytes "rmw_shutdown"

abbrev pub zero_options_name : Text
zero_options_name = bytes "rmw_get_zero_initialized_init_options"

abbrev pub options_init_name : Text
options_init_name = bytes "rmw_init_options_init"

abbrev pub options_copy_name : Text
options_copy_name = bytes "rmw_init_options_copy"

abbrev pub options_fini_name : Text
options_fini_name = bytes "rmw_init_options_fini"

-- The functions in the order in which they are loaded.
abbrev pub required_functions : List Text
required_functions =
    publish_name
    ∷ bytes "rmw_publish_serialized_message"
    ∷ create_publisher_name
    ∷ destroy_publisher_name
    ∷ bytes "rmw_create_subscription"
    ∷ bytes "rmw_destroy_subscription"
    ∷ bytes "rmw_take"
    ∷ bytes "rmw_take_with_info"
    ∷ bytes "rmw_create_client"
    ∷ bytes "rmw_destroy_client"
    ∷ bytes "rmw_send_request"
    ∷ bytes "rmw_take_response"
    ∷ bytes "rmw_create_service"
    ∷ bytes "rmw_destroy_service"
    ∷ bytes "rmw_take_request"
    ∷ bytes "rmw_send_response"
    ∷ create_node_name
    ∷ destroy_node_name
    ∷ init_name
    ∷ shutdown_name
    ∷ zero_options_name
    ∷ options_init_name
    ∷ options_copy_name
    ∷ options_fini_name
    ∷ []

-- `snprintf` into `char lib_name[256]`.
abbrev pub library_name : Text → Text
library_name name = fill 256 (bytes "lib" ++ name ++ bytes ".so")

module _ {U : Type 0} (linker : Linker U) where
  -- The pointer is set also if the function is not found.
  unfoldable pub load_function : ℕ → Text → Pointers → Bool × Pointers
  load_function lib name p =
      let address = linker.dlsym lib name in
      (not (address == 0), λ other. if same_text other name then address else p other)

  -- `success &=` loads every function, whatever came before.
  unfoldable pub load_functions : ℕ → List Text → Bool × Pointers → Bool × Pointers
  load_functions lib [] (success, p) = (success, p)
  load_functions lib (name ∷ names) (success, p) =
      let (found, p') = load_function lib name p in load_functions lib names (success && found, p')

  -- `name` is what `get_underlying_rmw` returns, which is never null.
  unfoldable pub load_underlying_rmw : Text → Loader → U → Bool × Loader × U
  load_underlying_rmw name l u =
      let (lib, v) = linker.dlopen (library_name name) u in
      let (success, p) = load_functions lib required_functions (true, l.pointers) in
      if lib == 0
      then (false, record l { lib = 0 }, v)
      else (if not success
          then (false, record { lib = 0; pointers = p }, linker.dlclose lib v)
          else (true, record { lib = lib; pointers = p }, v))
