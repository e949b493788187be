-- ===== src/Process/Init.antt =====
-- `rmw_init` and `rmw_shutdown` of src/rmw_init.cpp, and src/rmw_node.cpp.
use rmw_robotops.Base.{ℕ, Bool, not, Option, some, ◌==◌, if◌then◌else◌}
use rmw_robotops.Base.Returns.{◌>>=◌}
use rmw_robotops.Text.{Text}
use rmw_robotops.Config.{get_underlying_rmw}
use rmw_robotops.World.{Constants}
use rmw_robotops.Background.{create_node_name, destroy_node_name}
use rmw_robotops.Loader.{load_underlying_rmw, init_name, shutdown_name}
use rmw_robotops.Process.{
  Platform, Process, Launch, Ending, start_trace_publisher, start_trace_context_change_publisher,
  start_diagnostics_publisher,
}
use rmw_robotops.Process.Stops.{
  stop_trace_publisher, stop_trace_context_change_publisher, stop_diagnostics_publisher,
}

module _ {U F : Type 0} (k : Constants) (e : Platform U F) where
  -- The rest of `rmw_init` once the library is loaded; the results of the starts are only logged.
  unfoldable pub start_publishers : Launch → Process U → Option (ℕ × Process U)
  start_publishers launch p = do
    (ret, p1) ← start_trace_publisher k e launch p
    (ret, p2) ← start_trace_context_change_publisher k e launch p1
    (ret, p3) ← start_diagnostics_publisher k e launch p2
    some (k.ret_ok, p3)

  unfoldable pub init_underlying : Launch → Process U → Option (ℕ × Process U)
  init_underlying launch p =
      let address = p.loader.pointers init_name in
      let (ret, u) = e.init address p.world.outside in
      let p' = record p { world = record (p.world) { outside = u } } in
      if address == 0
      then some (k.ret_error, p)
      else (if not (ret == k.ret_ok) then some (ret, p') else start_publishers launch p')

  -- `load_underlying_rmw` in the process.
  unfoldable pub load : Process U → Bool × Process U
  load p =
      let (done, l, u) =
        load_underlying_rmw e.linker (get_underlying_rmw e.config) p.loader p.world.outside in
      (done, record p { loader = l; world = record (p.world) { outside = u } })

  unfoldable pub rmw_init : Launch → Process U → Option (ℕ × Process U)
  rmw_init launch p =
      if p.loader.lib == 0
      then (let (done, p') = load p in
          if not done then some (k.ret_error, p') else init_underlying launch p')
      else init_underlying launch p

  unfoldable pub stop_publishers : Ending → Process U → Process U
  stop_publishers ending p =
      let p1 = (stop_diagnostics_publisher k e ending p).1 in
      let p2 = (stop_trace_context_change_publisher k e ending p1).1 in
      (stop_trace_publisher k e ending p2).1

  unfoldable pub rmw_shutdown : Ending → Process U → ℕ × Process U
  rmw_shutdown ending p =
      let p' = stop_publishers ending p in
      let address = p'.loader.pointers shutdown_name in
      let (ret, u) = e.shutdown address p'.world.outside in
      if address == 0
      then (k.ret_error, p')
      else (ret, record p' { world = record (p'.world) { outside = u } })

  -- `rmw_create_node` and `rmw_destroy_node`.
  unfoldable pub rmw_create_node : Text → Text → Process U → ℕ × Process U
  rmw_create_node name namespace p =
      let address = p.loader.pointers create_node_name in
      let (node, u) = e.calls.create_node address name namespace p.world.outside in
      if address == 0 then (0, p) else (node, record p { world = record (p.world) { outside = u } })

  unfoldable pub rmw_destroy_node : ℕ → Process U → ℕ × Process U
  rmw_destroy_node node p =
      let address = p.loader.pointers destroy_node_name in
      let (ret, u) = e.calls.destroy_node address node p.world.outside in
      if address == 0
      then (k.ret_error, p)
      else (ret, record p { world = record (p.world) { outside = u } })
