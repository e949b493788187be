-- ===== src/Process/Sound.antt =====
-- What holds of the process between two calls, and that bringing it up keeps it.
use rmw_robotops.Base.{
  ℕ, ◌≡◌, refl, ◌∙◌, Bool, true, false, not, ◌||◌, Option, some, ◌==◌, if◌then◌else◌, arith,
  if-intro, eq→==,
}
use rmw_robotops.Base.Returns.{Returns, Returns-bind, Returns-weaken}
use rmw_robotops.Text.{same_text}
use rmw_robotops.World.{World, Constants, check_tracing}
use rmw_robotops.Background.{
  Background, Kind, start_publisher, destroy_node_name, destroy_publisher_name,
}
use rmw_robotops.Background.Settled.{IsSettled, start_publisher_lem}
use rmw_robotops.Loader.{Loader, init_name}
use rmw_robotops.Loader.Complete.{
  IsComplete, listed, load_underlying_rmw-IsComplete, load_underlying_rmw_lem, pointer_set,
}
use rmw_robotops.Process.{
  Platform, Process, Launch, trace_kind, context_kind, diagnostics_kind, check_diagnostics,
  start_trace_publisher, start_trace_context_change_publisher, start_diagnostics_publisher,
}
use rmw_robotops.Process.Init.{start_publishers, init_underlying, load, rmw_init}

abbrev pub any_running : {U : Type 0} → Process U → Bool
any_running p = p.trace.running || p.context.running || p.diagnostics.running

-- The pointers are set while the library is open, the publishers are settled, and none runs without
-- the library.
pub record IsSound {U : Type 0} (p : Process U) : Type 0 where
  pub complete : IsComplete p.loader
  pub trace_settled : IsSettled p.trace
  pub context_settled : IsSettled p.context
  pub diagnostics_settled : IsSettled p.diagnostics
  pub needs_library : (not (p.loader.lib == 0) || not (any_running p)) ≡ true

if-both : {A B : Type 0} (b : Bool) → A → B → (if b then A else B)
if-both true a b = a
if-both false a b = b

module _ {U F : Type 0} (k : Constants) (e : Platform U F) where
  pub load-IsSound :
      (p : Process U)
      → IsSound p
      → (p.loader.lib == 0) ≡ true
      → let (done, p') = load k e p in IsSound p' × ((p'.loader.lib == 0) ≡ not done)
  unfolding load
  load-IsSound p s closed =
      let loaded =
        load_underlying_rmw_lem e.linker e.config.underlying_rmw init_name p.loader
          p.world.outside in
      let nothing : any_running p ≡ false = ground (arith, s.needs_library) in
      (
        record {
          complete =
              load_underlying_rmw-IsComplete e.linker e.config.underlying_rmw p.loader
                p.world.outside;
          trace_settled = s.trace_settled;
          context_settled = s.context_settled;
          diagnostics_settled = s.diagnostics_settled;
          needs_library = rw nothing (ground arith);
        },
        ground (arith, loaded),
      )

module _ {U F : Type 0} (k : Constants) (e : Platform U F) (launch : Launch) where
  -- A start of a settled publisher with the library open leaves it settled.
  starts-IsSettled :
      (l : Loader) (kind : Kind) (check : World U → Bool × World U) (starts : Bool) (b : Background)
      (w : World U)
      → IsComplete l
      → (l.lib == 0) ≡ false
      → IsSettled b
      → Returns (start_publisher k e.calls l.pointers kind check starts b w) (λ r. IsSettled r.1)
  unfolding listed same_text
  starts-IsSettled l kind check starts b w complete open_lib s =
      Returns-weaken _ (λ r. IsSettled r.1)
        (start_publisher k e.calls l.pointers kind check starts b w)
        (start_publisher_lem k e.calls l.pointers
          (pointer_set l destroy_node_name complete open_lib refl)
          (pointer_set l destroy_publisher_name complete open_lib refl) kind check starts b w s)
        (λ r h. h.0)

  -- What a start keeps: soundness, and the library.
  abbrev pub Kept : Loader → ℕ × Process U → Type 0
  Kept l r = IsSound r.1 × (r.1.loader ≡ l)

  pub start_trace_publisher-IsSound :
      (p : Process U)
      → IsSound p
      → (p.loader.lib == 0) ≡ false
      → Returns (start_trace_publisher k e launch p) (Kept p.loader)
  unfolding start_trace_publisher Returns
  start_trace_publisher-IsSound p s open_lib =
      Returns-bind (λ r. IsSettled r.1) (Kept p.loader) _ _
        (starts-IsSettled p.loader (trace_kind k e) check_tracing launch.trace_starts p.trace
          p.world s.complete open_lib s.trace_settled)
        (λ r h. (
          record {
            complete = s.complete;
            trace_settled = h;
            context_settled = s.context_settled;
            diagnostics_settled = s.diagnostics_settled;
            needs_library = rw open_lib refl;
          },
          refl,
        ))

  pub start_trace_context_change_publisher-IsSound :
      (p : Process U)
      → IsSound p
      → (p.loader.lib == 0) ≡ false
      → Returns (start_trace_context_change_publisher k e launch p) (Kept p.loader)
  unfolding start_trace_context_change_publisher Returns
  start_trace_context_change_publisher-IsSound p s open_lib =
      Returns-bind (λ r. IsSettled r.1) (Kept p.loader) _ _
        (starts-IsSettled p.loader (context_kind k e) check_tracing launch.context_starts p.context
          p.world s.complete open_lib s.context_settled)
        (λ r h. (
          record {
            complete = s.complete;
            trace_settled = s.trace_settled;
            context_settled = h;
            diagnostics_settled = s.diagnostics_settled;
            needs_library = rw open_lib refl;
          },
          refl,
        ))

  pub start_diagnostics_publisher-IsSound :
      (p : Process U)
      → IsSound p
      → (p.loader.lib == 0) ≡ false
      → Returns (start_diagnostics_publisher k e launch p) (Kept p.loader)
  unfolding start_diagnostics_publisher Returns
  start_diagnostics_publisher-IsSound p s open_lib =
      Returns-bind (λ r. IsSettled r.1) (Kept p.loader) _ _
        (starts-IsSettled p.loader (diagnostics_kind k e) (check_diagnostics k e)
          launch.diagnostics_starts p.diagnostics p.world s.complete open_lib s.diagnostics_settled)
        (λ r h. (
          record {
            complete = s.complete;
            trace_settled = s.trace_settled;
            context_settled = s.context_settled;
            diagnostics_settled = h;
            needs_library = rw open_lib refl;
          },
          refl,
        ))

  pub start_publishers-IsSound :
      (p : Process U)
      → IsSound p
      → (p.loader.lib == 0) ≡ false
      → Returns
          (start_publishers k e launch p)
          (λ r. IsSound r.1 × (r.1.loader ≡ p.loader) × (r.0 ≡ k.ret_ok))
  unfolding start_publishers Returns
  start_publishers-IsSound p s open_lib =
      let Q : ℕ × Process U → Type 0 =
        λ r. IsSound r.1 × (r.1.loader ≡ p.loader) × (r.0 ≡ k.ret_ok) in
      Returns-bind (Kept p.loader) Q _ _ (start_trace_publisher-IsSound p s open_lib) (λ r1 h1.
        let open1 : (r1.1.loader.lib == 0) ≡ false = rw h1.1 open_lib in
        Returns-bind (Kept r1.1.loader) Q _ _
          (start_trace_context_change_publisher-IsSound r1.1 h1.0 open1)
          (λ r2 h2.
            let open2 : (r2.1.loader.lib == 0) ≡ false = rw h2.1 open1 in
            Returns-bind (Kept r2.1.loader) Q _ _
              (start_diagnostics_publisher-IsSound r2.1 h2.0 open2)
              (λ r3 h3. (h3.0, h3.1 ∙ h2.1 ∙ h1.1, refl))))

  -- Nothing was started or stopped.
  abbrev pub Unstarted : Process U → Process U → Type 0
  Unstarted p p' =
      (p'.trace ≡ p.trace) × (p'.context ≡ p.context) × (p'.diagnostics ≡ p.diagnostics)

  -- What `rmw_init` leaves: a sound process, with an open library if it reports success, and with
  -- nothing started if it does not.
  abbrev pub Initialised : Process U → ℕ × Process U → Type 0
  Initialised p r =
      IsSound r.1 × (if r.0 == k.ret_ok then (r.1.loader.lib == 0) ≡ false else Unstarted p r.1)

  pub init_underlying-IsSound :
      (p : Process U)
      → IsSound p
      → (p.loader.lib == 0) ≡ false
      → Returns (init_underlying k e launch p) (Initialised p)
  unfolding init_underlying Returns
  init_underlying-IsSound p s open_lib =
      let address = p.loader.pointers init_name in
      let (ret, u) = e.init address p.world.outside in
      let p' : Process U = record p { world = record (p.world) { outside = u } } in
      let s' : IsSound p' = record {
        complete = s.complete;
        trace_settled = s.trace_settled;
        context_settled = s.context_settled;
        diagnostics_settled = s.diagnostics_settled;
        needs_library = s.needs_library;
      } in
      let Ends : Option (ℕ × Process U) → Type 0 = λ o. Returns o (Initialised p) in
      if-intro Ends (address == 0) (some (k.ret_error, p))
        (if not (ret == k.ret_ok) then some (ret, p') else start_publishers k e launch p')
        (λ null. (s, if-both (k.ret_error == k.ret_ok) open_lib (refl, refl, refl)))
        (λ set.
          if-intro Ends (not (ret == k.ret_ok)) (some (ret, p')) (start_publishers k e launch p')
            (λ failed. (s', if-both (ret == k.ret_ok) open_lib (refl, refl, refl)))
            (λ ok.
              Returns-weaken _ (Initialised p) (start_publishers k e launch p')
                (start_publishers-IsSound p' s' open_lib)
                (λ r h.
                  let same : (r.0 == k.ret_ok) ≡ true = eq→== r.0 k.ret_ok h.2 in
                  (h.0, rw (same, h.1) open_lib))))

  -- From a sound process, and with an error code that is not the code of success, `rmw_init` always
  -- returns and leaves the process sound: every pointer set while the library is open, every background
  -- publisher either whole or not there. If it reports success the library is open, and if it does not
  -- no background publisher was started or stopped.
  pub rmw_init-IsSound :
      (p : Process U)
      → (k.ret_error == k.ret_ok) ≡ false
      → IsSound p
      → Returns (rmw_init k e launch p) (Initialised p)
  unfolding rmw_init load Returns
  rmw_init-IsSound p errs s =
      let (done, p') = load k e p in
      let Ends : Option (ℕ × Process U) → Type 0 = λ o. Returns o (Initialised p) in
      if-intro Ends (p.loader.lib == 0)
        (if not done then some (k.ret_error, p') else init_underlying k e launch p')
        (init_underlying k e launch p)
        (λ closed.
          let loaded = load-IsSound k e p s closed in
          if-intro Ends (not done) (some (k.ret_error, p')) (init_underlying k e launch p')
            (λ failed. (loaded.0, rw errs (refl, refl, refl)))
            (λ ok.
              let open_lib : (p'.loader.lib == 0) ≡ false = loaded.1 ∙ ok in
              Returns-weaken (Initialised p') (Initialised p) (init_underlying k e launch p')
                (init_underlying-IsSound p' loaded.0 open_lib) (λ r h. h)))
        (λ open_lib. init_underlying-IsSound p s open_lib)
