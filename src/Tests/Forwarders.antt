-- ===== src/Tests/Forwarders.antt =====
-- The theorems on the stubs, at a library that has every function but `rmw_free`.
use rmw_robotops.Base.{
  ℕ, ◌+◌, ◌≡◌, refl, Bool, true, false, not, ◌&&◌, ◌||◌, none, some, List, [], ◌∷◌, ◌==◌,
  if◌then◌else◌,
}
use rmw_robotops.Text.{Text, same_text}
use rmw_robotops.Topic.{bytes}
use rmw_robotops.Loader.{Linker, unloaded}
use rmw_robotops.Stubs.{
  Stub, null_pointer, nothing, not_available, StubState, resolve, forward_stub, forward_calls,
}
use rmw_robotops.Stubs.Table.{stubs}
use rmw_robotops.Stubs.Cache.{IsFresh, direct_calls, forward_calls_lem, forward_stub-unavailable}

abbrev linker : Linker ℕ
linker = record {
  dlopen = λ name u. (9, u);
  dlsym =
      λ lib name. if (lib == 0) then 0 else (if same_text name (bytes "rmw_free") then 0 else 5);
  dlclose = λ lib u. u;
}

abbrev allocate_stub : Stub
allocate_stub = record { name = bytes "rmw_allocate"; fallback = null_pointer }

abbrev free_stub : Stub
free_stub = record { name = bytes "rmw_free"; fallback = nothing }

abbrev count_call : ℕ → ℕ → ℕ × ℕ
count_call address u = (u, u + 1)

abbrev calls : List (Stub × (ℕ → ℕ → ℕ × ℕ))
calls = (allocate_stub, count_call) ∷ (free_stub, count_call) ∷ (allocate_stub, count_call) ∷ []

abbrev loaded : StubState ℕ
loaded = record {
  loader = record { lib = 9; pointers = λ name. 5 };
  statics = λ name. none;
  outside = 0;
}

loaded-IsFresh : IsFresh linker (bytes "rmw_x") loaded
unfolding resolve
loaded-IsFresh name = refl

forward_calls_lem_example :
    let (answers, s') = forward_calls linker (bytes "rmw_x") calls loaded in
    let direct = direct_calls linker 9 calls 0 in (answers ≡ direct.0) × (s'.outside ≡ direct.1)
forward_calls_lem_example =
    forward_calls_lem linker (bytes "rmw_x") calls loaded refl loaded-IsFresh

-- The first call of the stub came when the library could not be opened.
abbrev missed : StubState ℕ
missed = record { loader = unloaded; statics = λ name. some 0; outside = 0 }

forward_stub-unavailable_example :
    let s' = (forward_calls linker (bytes "rmw_x") calls missed).1 in
    (forward_stub linker (bytes "rmw_x") allocate_stub count_call s').0 ≡ not_available null_pointer
forward_stub-unavailable_example =
    forward_stub-unavailable linker (bytes "rmw_x") calls allocate_stub count_call missed refl

-- Whether a name is that of a later stub, and whether no two stubs of a list share theirs.
abbrev is_stub_name : Text → List Stub → Bool
is_stub_name name [] = false
is_stub_name name (stub ∷ stubs) = same_text name stub.name || is_stub_name name stubs

abbrev all_distinct : List Stub → Bool
all_distinct [] = true
all_distinct (stub ∷ stubs) = not (is_stub_name stub.name stubs) && all_distinct stubs

stub_names_unique : all_distinct stubs ≡ true
unfolding same_text
stub_names_unique = refl
