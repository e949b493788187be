-- ===== src/Process/Options/Errors.antt =====
-- When the calls on the init options reach the middleware.
use rmw_robotops.Base.{
  ℕ, ◌≡◌, refl, true, false, not, ◌∙◌, ◌==◌, if◌then◌else◌, if-intro, ne→==, Bool-cases, inl, inr,
}
use rmw_robotops.Text.{Text}
use rmw_robotops.World.{Constants}
use rmw_robotops.Loader.{required_functions}
use rmw_robotops.Loader.Complete.{listed, pointer_set}
use rmw_robotops.Process.{Platform, Process}
use rmw_robotops.Process.Init.{load}
use rmw_robotops.Process.Sound.{IsSound, load-IsSound}
use rmw_robotops.Process.Options.{OptionCalls, through_pointer, through_library}

module _ {U F : Type 0} (k : Constants) (e : Platform U F) (calls : OptionCalls U) (name : Text)
    (call : ℕ → U → ℕ × U) where
  -- The process once the library was loaded where it was not.
  pub after_load : Process U → Process U
  after_load p = if p.loader.lib == 0 then (load k e p).1 else p

  -- The error without a library; otherwise the call, with its result and its effect.
  abbrev pub Reaches : Process U → ℕ × Process U → Type 0
  Reaches p r =
      IsSound r.1
      × (if p.loader.lib == 0
          then ◌≡◌ {A = ℕ × Process U} r (k.ret_error, p)
          else ◌≡◌ {A = ℕ × U} (r.0, r.1.world.outside)
              (call (p.loader.pointers name) p.world.outside))

  through_pointer-Reaches :
      (p : Process U)
      → IsSound p
      → (p.loader.lib == 0) ≡ false
      → listed name required_functions ≡ true
      → Reaches p (through_pointer k e calls name call p)
  unfolding through_pointer
  through_pointer-Reaches p s open_lib is_listed =
      let set =
        ne→== (p.loader.pointers name) 0
          (pointer_set p.loader name s.complete open_lib is_listed) in
      let sound : (u : U) → IsSound (record p { world = record (p.world) { outside = u } }) = λ u.
        record {
          complete = s.complete;
          trace_settled = s.trace_settled;
          context_settled = s.context_settled;
          diagnostics_settled = s.diagnostics_settled;
          needs_library = s.needs_library;
        } in
      rw (set, open_lib) (sound (call (p.loader.pointers name) p.world.outside).1, refl)

  -- From a sound process, a call on the init options behind one of the pointers that are loaded, with
  -- the library loaded first where it was not: it leaves the process sound, reports the error and does
  -- nothing else if there is no library then, and otherwise returns the code of the middleware's own
  -- function and has its effect.
  pub through_library_lem :
      (p : Process U)
      → IsSound p
      → listed name required_functions ≡ true
      → Reaches (after_load p) (through_library k e calls name call p)
  unfolding through_library after_load
  through_library_lem p s is_listed = elim (Bool-cases (p.loader.lib == 0)) [
    | inl closed ↦
        (let (done, p') = load k e p in
          let loaded = load-IsSound k e p s closed in
          rw closed (
            if-intro (λ (r : ℕ × Process U). Reaches p' r) (not done) (k.ret_error, p')
              (through_pointer k e calls name call p')
              (λ failed. rw (loaded.1, failed) (loaded.0, refl))
              (λ ok. through_pointer-Reaches p' loaded.0 (loaded.1 ∙ ok) is_listed)))
    | inr open_lib ↦ rw open_lib (through_pointer-Reaches p s open_lib is_listed)
  ]
