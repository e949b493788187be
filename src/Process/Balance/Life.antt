-- ===== src/Process/Balance/Life.antt =====
-- What `rmw_init` and `rmw_shutdown` create and destroy.
use rmw_robotops.Base.{ℕ, ◌≡◌, ◌∙◌, false, not, Option, some, ◌==◌, if◌then◌else◌, arith, if-intro}
use rmw_robotops.Base.Returns.{Returns, Returns-bind, Returns-weaken, Returns-both}
use rmw_robotops.World.{Constants}
use rmw_robotops.Background.Ledger.{Counts}
use rmw_robotops.Loader.{load_underlying_rmw, library_name, init_name, shutdown_name}
use rmw_robotops.Process.{
  Platform, Process, Launch, Ending, start_trace_publisher, start_trace_context_change_publisher,
}
use rmw_robotops.Process.Stops.{
  stop_trace_publisher, stop_trace_context_change_publisher, stop_diagnostics_publisher,
}
use rmw_robotops.Process.Init.{
  start_publishers, init_underlying, load, rmw_init, stop_publishers, rmw_shutdown,
}
use rmw_robotops.Process.Sound.{
  IsSound, Kept, start_trace_publisher-IsSound, start_trace_context_change_publisher-IsSound,
  load-IsSound,
}
use rmw_robotops.Process.Down.{
  stop_diagnostics_publisher-IsSound, stop_trace_context_change_publisher-IsSound,
}
use rmw_robotops.Process.Balance.{
  Quiet, Balanced, Balanced-trans, start_trace_publisher-Balanced,
  start_trace_context_change_publisher-Balanced, start_diagnostics_publisher-Balanced,
}
use rmw_robotops.Process.Balance.Stop.{
  stop_trace_publisher-Balanced, stop_trace_context_change_publisher-Balanced,
  stop_diagnostics_publisher-Balanced,
}

module _ {U F : Type 0} (k : Constants) (e : Platform U F) (created destroyed : U → ℕ)
    (counts : Counts e.calls created destroyed) (quiet : Quiet e created destroyed) where
  abbrev pub Even : Process U → Process U → Type 0
  Even = Balanced created destroyed

  start_publishers-Balanced :
      (launch : Launch) (p : Process U)
      → IsSound p
      → (p.loader.lib == 0) ≡ false
      → Returns (start_publishers k e launch p) (λ r. Even p r.1)
  unfolding start_publishers Returns
  start_publishers-Balanced launch p s open_lib =
      let Q : ℕ × Process U → Type 0 = λ r. Even p r.1 in
      let P1 : ℕ × Process U → Type 0 = λ r. Kept k e launch p.loader r × Even p r.1 in
      let both1 : Returns (start_trace_publisher k e launch p) P1 =
        Returns-both (Kept k e launch p.loader) Q (start_trace_publisher k e launch p)
          (start_trace_publisher-IsSound k e launch p s open_lib)
          (start_trace_publisher-Balanced k e created destroyed counts quiet launch p s open_lib) in
      Returns-bind P1 Q _ _ both1 (λ r1 h1.
        let open1 : (r1.1.loader.lib == 0) ≡ false = rw h1.0.1 open_lib in
        let start2 = start_trace_context_change_publisher k e launch r1.1 in
        let P2 : ℕ × Process U → Type 0 = λ r. Kept k e launch r1.1.loader r × Even r1.1 r.1 in
        let both2 : Returns start2 P2 =
          Returns-both (Kept k e launch r1.1.loader) (λ r. Even r1.1 r.1) start2
            (start_trace_context_change_publisher-IsSound k e launch r1.1 h1.0.0 open1)
            (start_trace_context_change_publisher-Balanced k e created destroyed counts quiet launch
              r1.1 h1.0.0 open1) in
        Returns-bind P2 Q _ _ both2 (λ r2 h2.
          let open2 : (r2.1.loader.lib == 0) ≡ false = rw h2.0.1 open1 in
          Returns-bind (λ r. Even r2.1 r.1) Q _ _
            (start_diagnostics_publisher-Balanced k e created destroyed counts quiet launch r2.1
              h2.0.0 open2)
            (λ r3 h3.
              Balanced-trans created destroyed p r1.1 r3.1 h1.1
                (Balanced-trans created destroyed r1.1 r2.1 r3.1 h2.1 h3))))

  init_underlying-Balanced :
      (launch : Launch) (p : Process U)
      → IsSound p
      → (p.loader.lib == 0) ≡ false
      → Returns (init_underlying k e launch p) (λ r. Even p r.1)
  unfolding init_underlying Returns
  init_underlying-Balanced launch p s open_lib =
      let address = p.loader.pointers init_name in
      let (ret, u) = e.init address p.world.outside in
      let p' : Process U = record p { world = record (p.world) { outside = u } } in
      let still = quiet.init_quiet address p.world.outside in
      let s' : IsSound p' = record {
        complete = s.complete;
        trace_settled = s.trace_settled;
        context_settled = s.context_settled;
        diagnostics_settled = s.diagnostics_settled;
        needs_library = s.needs_library;
      } in
      let step : Even p p' = omega arith in
      let Ends : Option (ℕ × Process U) → Type 0 = λ o. Returns o (λ r. Even p r.1) in
      if-intro Ends (address == 0) (some (k.ret_error, p))
        (if not (ret == k.ret_ok) then some (ret, p') else start_publishers k e launch p')
        (λ null. (let same : Even p p = omega arith in same))
        (λ set.
          if-intro Ends (not (ret == k.ret_ok)) (some (ret, p')) (start_publishers k e launch p')
            (λ failed. step)
            (λ ok.
              Returns-weaken (λ r. Even p' r.1) (λ r. Even p r.1) (start_publishers k e launch p')
                (start_publishers-Balanced launch p' s' open_lib)
                (λ r h. Balanced-trans created destroyed p p' r.1 step h)))

  load-Balanced : (p : Process U) → Even p (load k e p).1
  unfolding load load_underlying_rmw
  load-Balanced p =
      let opened = e.linker.dlopen (library_name e.config.underlying_rmw) p.world.outside in
      ground (
        arith,
        quiet.dlopen_quiet (library_name e.config.underlying_rmw) p.world.outside,
        quiet.dlclose_quiet opened.0 opened.1,
      )

  pub rmw_init-Balanced :
      (launch : Launch) (p : Process U)
      → IsSound p
      → Returns (rmw_init k e launch p) (λ r. Even p r.1)
  unfolding rmw_init Returns
  rmw_init-Balanced launch p s =
      let (done, p') = load k e p in
      let step = load-Balanced p in
      let Ends : Option (ℕ × Process U) → Type 0 = λ o. Returns o (λ r. Even p r.1) in
      if-intro Ends (p.loader.lib == 0)
        (if not done then some (k.ret_error, p') else init_underlying k e launch p')
        (init_underlying k e launch p)
        (λ closed.
          let loaded = load-IsSound k e p s closed in
          if-intro Ends (not done) (some (k.ret_error, p')) (init_underlying k e launch p')
            (λ failed. step)
            (λ ok.
              let open_lib : (p'.loader.lib == 0) ≡ false = loaded.1 ∙ ok in
              Returns-weaken (λ r. Even p' r.1) (λ r. Even p r.1) (init_underlying k e launch p')
                (init_underlying-Balanced launch p' loaded.0 open_lib)
                (λ r h. Balanced-trans created destroyed p p' r.1 step h)))
        (λ open_lib. init_underlying-Balanced launch p s open_lib)

  stop_publishers-Balanced :
      (ending : Ending) (p : Process U) → IsSound p → Even p (stop_publishers k e ending p)
  unfolding stop_publishers
  stop_publishers-Balanced ending p s =
      let p1 = (stop_diagnostics_publisher k e ending p).1 in
      let s1 = stop_diagnostics_publisher-IsSound k e ending p s in
      let p2 = (stop_trace_context_change_publisher k e ending p1).1 in
      let s2 = stop_trace_context_change_publisher-IsSound k e ending p1 s1 in
      let p3 = (stop_trace_publisher k e ending p2).1 in
      let b1 = stop_diagnostics_publisher-Balanced k e created destroyed counts quiet ending p s in
      let b2 =
        stop_trace_context_change_publisher-Balanced k e created destroyed counts quiet ending p1
          s1 in
      let b3 = stop_trace_publisher-Balanced k e created destroyed counts quiet ending p2 s2 in
      Balanced-trans created destroyed p p1 p3 b1 (Balanced-trans created destroyed p1 p2 p3 b2 b3)

  pub rmw_shutdown-Balanced :
      (ending : Ending) (p : Process U) → IsSound p → Even p (rmw_shutdown k e ending p).1
  unfolding rmw_shutdown
  rmw_shutdown-Balanced ending p s =
      let p' = stop_publishers k e ending p in
      let address = p'.loader.pointers shutdown_name in
      let (ret, u) = e.shutdown address p'.world.outside in
      let after : Process U = record p' { world = record (p'.world) { outside = u } } in
      let still = quiet.shutdown_quiet address p'.world.outside in
      let stopped = stop_publishers-Balanced ending p s in
      if-intro (λ (r : ℕ × Process U). Even p r.1) (address == 0) (k.ret_error, p') (ret, after)
        (λ null. stopped) (λ set. omega arith)
