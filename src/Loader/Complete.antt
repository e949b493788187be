-- ===== src/Loader/Complete.antt =====
-- The middleware is loaded as a whole or not at all.
use rmw_robotops.Base.{
  ℕ, ◌≡◌, ◌≢◌, refl, Bool, true, false, ◌&&◌, ◌||◌, not, List, [], ◌∷◌, ◌==◌, if◌then◌else◌, arith,
}
use rmw_robotops.Text.{Text, same_text, same_text→eq}
use rmw_robotops.Background.{Pointers}
use rmw_robotops.Loader.{
  Linker, Loader, load_function, load_functions, library_name, required_functions,
  load_underlying_rmw,
}

unfoldable pub listed : Text → List Text → Bool
listed name [] = false
listed name (x ∷ xs) = same_text name x || listed name xs

module _ {U : Type 0} (linker : Linker U) where
  -- Whether the library has every function of the list.
  pub has_all : ℕ → List Text → Bool
  has_all lib [] = true
  has_all lib (name ∷ names) = not (linker.dlsym lib name == 0) && has_all lib names

  load_functions_lem :
      (lib : ℕ) (names : List Text) (success : Bool) (p : Pointers) (name : Text)
      → let (success', p') = load_functions linker lib names (success, p) in
        (success' ≡ (success && has_all lib names))
        × (p' name ≡ (if listed name names then linker.dlsym lib name else p name))
  unfolding load_functions load_function has_all listed
  load_functions_lem lib [] success p name = ground arith
  load_functions_lem lib (x ∷ xs) success p name =
      let ih =
        load_functions_lem lib xs (success && (load_function linker lib x p).0)
          (load_function linker lib x p).1 name in
      ground (arith, ih, same_text→eq name x)

  has_all-listed :
      (lib : ℕ) (names : List Text) (name : Text)
      → (not (has_all lib names) || not (listed name names) || not (linker.dlsym lib name == 0))
        ≡ true
  unfolding has_all listed
  has_all-listed lib [] name = refl
  has_all-listed lib (x ∷ xs) name = ground (arith, has_all-listed lib xs name, same_text→eq name x)

  -- A load reports success just if the library opens and has every function of the list; it leaves
  -- the library open if so, and none if not. Once the library was opened each pointer of the list holds
  -- the address in it, or 0, also if the load fails and the library is closed again; the other pointers,
  -- and all of them if it does not open, stay what they were.
  pub load_underlying_rmw_lem :
      (rmw name : Text) (l : Loader) (u : U)
      → let lib = (linker.dlopen (library_name rmw) u).0 in
        let (done, l', u') = load_underlying_rmw linker rmw l u in
        (done ≡ (not (lib == 0) && has_all lib required_functions))
        × (l'.lib ≡ (if done then lib else 0))
        × (l'.pointers name ≡ (
            if not (lib == 0) && listed name required_functions
            then linker.dlsym lib name
            else l.pointers name))
  unfolding load_underlying_rmw
  load_underlying_rmw_lem rmw name l u =
      let lib = (linker.dlopen (library_name rmw) u).0 in
      ground (arith, load_functions_lem lib required_functions true l.pointers name)

-- While a library is open, every pointer of the list is set.
unfoldable pub IsComplete : Loader → Type 0
IsComplete l =
    (name : Text)
    → (l.lib == 0 || not (listed name required_functions) || not (l.pointers name == 0)) ≡ true

pub pointer_set :
    (l : Loader) (name : Text)
    → IsComplete l
    → (l.lib == 0) ≡ false
    → listed name required_functions ≡ true
    → l.pointers name ≢ 0
unfolding IsComplete
pointer_set l name complete open_lib is_listed = ground (arith, complete name)

module _ {U : Type 0} (linker : Linker U) where
  -- Every load keeps, or brings about, that a pointer of the list is set while a library is open.
  pub load_underlying_rmw-IsComplete :
      (rmw : Text) (l : Loader) (u : U) → IsComplete (load_underlying_rmw linker rmw l u).1
  unfolding IsComplete
  load_underlying_rmw-IsComplete rmw l u name =
      let lib = (linker.dlopen (library_name rmw) u).0 in
      ground (
        arith,
        load_underlying_rmw_lem linker rmw name l u,
        has_all-listed linker lib required_functions name,
      )
