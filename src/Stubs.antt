-- ===== src/Stubs.antt =====
-- src/rmw_stubs.cpp: the functions that only pass a call on. They differ in the name they look up, which
-- is their own, and in what they return if the middleware does not have it.
pub mod Table
pub mod Cache
use rmw_robotops.Base.{ℕ, Bool, true, false, Option, none, some, List, [], ◌∷◌, ◌==◌, if◌then◌else◌}
use rmw_robotops.Text.{Text, same_text}
use rmw_robotops.Loader.{Linker, Loader, load_underlying_rmw}

-- RMW_RET_ERROR, `nullptr`, `false`, `{}`, or a function that returns nothing.
pub data Fallback : Type 0 where
  error_code null_pointer false_value empty_value nothing : Fallback

pub record Stub : Type 0 where
  pub name : Text
  pub fallback : Fallback

-- What the caller gets.
pub data Answer (R : Type 0) : Type 0 where
  not_available : Fallback → Answer R
  forwarded : R → Answer R

-- `static auto underlying_func` of each stub: `none` before its first call, then an address or 0.
abbrev pub Statics : Type 0
Statics = Text → Option ℕ

pub record StubState (U : Type 0) : Type 0 where
  pub loader : Loader
  pub statics : Statics
  pub outside : U

-- The variable is initialised by the first call, whatever it finds.
unfoldable pub resolve : Option ℕ → ℕ → ℕ
resolve none address = address
resolve (some cached) address = cached

module _ {U : Type 0} (linker : Linker U) (rmw : Text) where
  -- The result of the load is not looked at.
  unfoldable pub ensure_loaded : StubState U → StubState U
  ensure_loaded s =
      let (done, l, u) = load_underlying_rmw linker rmw s.loader s.outside in
      if s.loader.lib == 0 then record s { loader = l; outside = u } else s

  module _ {R : Type 0} where
    -- `call` is what the code at an address does with the arguments of this call.
    unfoldable pub forward_stub : Stub → (ℕ → U → R × U) → StubState U → Answer R × StubState U
    forward_stub stub call s =
        let s1 = ensure_loaded s in
        let address = resolve (s1.statics stub.name) (linker.dlsym s1.loader.lib stub.name) in
        let s2 = record s1 {
          statics = λ other. if same_text other stub.name then some address else s1.statics other;
        } in
        let (result, u) = call address s2.outside in
        if address == 0
        then (not_available stub.fallback, s2)
        else (forwarded result, record s2 { outside = u })

    -- Calls of any stubs, one after the other.
    pub forward_calls : List (Stub × (ℕ → U → R × U)) → StubState U → List (Answer R) × StubState U
    forward_calls [] s = ([], s)
    forward_calls ((stub, call) ∷ calls) s =
        let (answer, s') = forward_stub stub call s in
        let (answers, s'') = forward_calls calls s' in (answer ∷ answers, s'')
