-- ===== src/Stubs/Cache.antt =====
-- What the cached addresses of the stubs do.
use rmw_robotops.Base.{
  ℕ, ◌≡◌, refl, sym, ap, ◌∙◌, Bool, true, false, Option, some, List, [], ◌∷◌, ◌==◌, if◌then◌else◌,
  arith,
}
use rmw_robotops.Text.{Text, same_text, same_text→eq}
use rmw_robotops.Loader.{Linker}
use rmw_robotops.Stubs.{
  Stub, Answer, not_available, forwarded, StubState, resolve, ensure_loaded, forward_stub,
  forward_calls,
}

fresh_static :
    (hit : Bool) (old : Option ℕ) (cached address : ℕ)
    → (hit ≡ true → cached ≡ address)
    → resolve old address ≡ address
    → resolve (if hit then some cached else old) address ≡ address
unfolding resolve
fresh_static true old cached address e h = e refl
fresh_static false old cached address e h = h

sticky_static :
    (hit : Bool) (own old : Option ℕ) (found address : ℕ)
    → (hit ≡ true → own ≡ some address)
    → old ≡ some address
    → (if hit then some (resolve own found) else old) ≡ some address
unfolding resolve
sticky_static true own old found address e h = rw (e refl) refl
sticky_static false own old found address e h = h

module _ {U R : Type 0} (linker : Linker U) where
  -- A call that looks the function up in the open library anew.
  pub direct_call : ℕ → Stub → (ℕ → U → R × U) → U → Answer R × U
  direct_call lib stub call u =
      let address = linker.dlsym lib stub.name in
      let (result, v) = call address u in
      if address == 0 then (not_available stub.fallback, u) else (forwarded result, v)

  pub direct_calls : ℕ → List (Stub × (ℕ → U → R × U)) → U → List (Answer R) × U
  direct_calls lib [] u = ([], u)
  direct_calls lib ((stub, call) ∷ calls) u =
      let (answer, v) = direct_call lib stub call u in
      let (answers, w) = direct_calls lib calls v in (answer ∷ answers, w)

module _ {U : Type 0} (linker : Linker U) (rmw : Text) where
  -- No variable holds anything but the address in the open library.
  abbrev pub IsFresh : StubState U → Type 0
  IsFresh s =
      (name : Text)
      → resolve (s.statics name) (linker.dlsym s.loader.lib name) ≡ linker.dlsym s.loader.lib name

  ensure_loaded-statics : (s : StubState U) → (ensure_loaded linker rmw s).statics ≡ s.statics
  unfolding ensure_loaded
  ensure_loaded-statics s = ground arith

  module _ {R : Type 0} where
    step_facts :
        (stub : Stub) (call : ℕ → U → R × U) (s : StubState U)
        → (s.loader.lib == 0) ≡ false
        → resolve (s.statics stub.name) (linker.dlsym s.loader.lib stub.name)
          ≡ linker.dlsym s.loader.lib stub.name
        → let (answer, s') = forward_stub linker rmw stub call s in
          let direct = direct_call {R = R} linker s.loader.lib stub call s.outside in
          (answer ≡ direct.0) × (s'.outside ≡ direct.1) × (s'.loader ≡ s.loader)
    unfolding forward_stub ensure_loaded direct_call
    step_facts stub call s open_lib fresh = rw (open_lib, fresh) (ground arith)

    step_static :
        (stub : Stub) (call : ℕ → U → R × U) (s : StubState U) (name : Text)
        → (s.loader.lib == 0) ≡ false
        → let s' = (forward_stub linker rmw stub call s).1 in
          s'.statics name ≡ (
            if same_text name stub.name
            then some (resolve (s.statics stub.name) (linker.dlsym s.loader.lib stub.name))
            else s.statics name)
    unfolding forward_stub ensure_loaded
    step_static stub call s name open_lib = rw open_lib (ground arith)

    step-IsFresh :
        (stub : Stub) (call : ℕ → U → R × U) (s : StubState U)
        → (s.loader.lib == 0) ≡ false
        → IsFresh s
        → IsFresh (forward_stub linker rmw stub call s).1
    step-IsFresh stub call s open_lib fresh name =
        let lib = s.loader.lib in
        let facts = step_facts stub call s open_lib (fresh stub.name) in
        let kept : (forward_stub linker rmw stub call s).1.loader ≡ s.loader = facts.2 in
        rw (kept, step_static stub call s name open_lib)
          (fresh_static (same_text name stub.name) (s.statics name) _ (linker.dlsym lib name)
            (λ hit.
              fresh stub.name
              ∙ ap (λ n. linker.dlsym lib n) (sym (same_text→eq name stub.name hit)))
            (fresh name))

    -- While the library is open and no stub has cached anything but an address in it, any calls of the
    -- stubs, one after the other, answer what they would if each looked its function up anew, and have
    -- the same effect.
    pub forward_calls_lem :
        (calls : List (Stub × (ℕ → U → R × U))) (s : StubState U)
        → (s.loader.lib == 0) ≡ false
        → IsFresh s
        → let (answers, s') = forward_calls linker rmw calls s in
          let direct = direct_calls linker s.loader.lib calls s.outside in
          (answers ≡ direct.0) × (s'.outside ≡ direct.1)
    unfolding forward_calls direct_calls
    forward_calls_lem [] s open_lib fresh = (refl, refl)
    forward_calls_lem ((stub, call) ∷ calls) s open_lib fresh =
        let facts = step_facts stub call s open_lib (fresh stub.name) in
        let s' = (forward_stub linker rmw stub call s).1 in
        let kept : s'.loader ≡ s.loader = facts.2 in
        let open' : (s'.loader.lib == 0) ≡ false = rw kept open_lib in
        let rest = forward_calls_lem calls s' open' (step-IsFresh stub call s open_lib fresh) in
        let direct = direct_call {R = R} linker s.loader.lib stub call s.outside in
        let same : ◌≡◌ {A = List (Answer R) × U}
            (direct_calls linker s'.loader.lib calls s'.outside)
            (direct_calls linker s.loader.lib calls direct.1) =
          rw (kept, facts.1) refl in
        let answers = rest.0 ∙ ap (λ r. r.0) same in
        (λ i. facts.0 i ∷ answers i, rest.1 ∙ ap (λ r. r.1) same)

    static_after :
        (stub : Stub) (call : ℕ → U → R × U) (s : StubState U) (name : Text)
        → let s1 = ensure_loaded linker rmw s in
          (forward_stub linker rmw stub call s).1.statics name ≡ (
            if same_text name stub.name
            then some (resolve (s1.statics stub.name) (linker.dlsym s1.loader.lib stub.name))
            else s1.statics name)
    unfolding forward_stub
    static_after stub call s name = ground arith

    sticky :
        (stub : Stub) (call : ℕ → U → R × U) (s : StubState U) (name : Text) (address : ℕ)
        → s.statics name ≡ some address
        → (forward_stub linker rmw stub call s).1.statics name ≡ some address
    sticky stub call s name address e =
        let s1 = ensure_loaded linker rmw s in
        let found = linker.dlsym s1.loader.lib stub.name in
        let kept = ap (λ f. f name) (ensure_loaded-statics s) in
        static_after stub call s name
        ∙ sticky_static (same_text name stub.name) (s1.statics stub.name) (s1.statics name) found
            address (λ hit. ap s1.statics (sym (same_text→eq name stub.name hit)) ∙ kept ∙ e)
            (kept ∙ e)

    sticky_calls :
        (calls : List (Stub × (ℕ → U → R × U))) (s : StubState U) (name : Text) (address : ℕ)
        → s.statics name ≡ some address
        → (forward_calls linker rmw calls s).1.statics name ≡ some address
    unfolding forward_calls
    sticky_calls [] s name address e = e
    sticky_calls ((stub, call) ∷ calls) s name address e =
        sticky_calls calls (forward_stub linker rmw stub call s).1 name address
          (sticky stub call s name address e)

    -- A stub whose first call found no function stays unavailable: after any further calls of stubs,
    -- also those that load a library which has the function, it answers with its fallback value.
    pub forward_stub-unavailable :
        (calls : List (Stub × (ℕ → U → R × U))) (stub : Stub) (call : ℕ → U → R × U)
        (s : StubState U)
        → s.statics stub.name ≡ some 0
        → let s' = (forward_calls linker rmw calls s).1 in
          (forward_stub linker rmw stub call s').0 ≡ not_available stub.fallback
    unfolding forward_stub resolve
    forward_stub-unavailable calls stub call s e =
        let s' = (forward_calls linker rmw calls s).1 in
        rw (ensure_loaded-statics s', sticky_calls calls s stub.name 0 e) refl
