-- ===== src/Tests/Lives.antt =====
-- The theorems on the life of the process, at the counting machine.
use rmw_robotops.Base.{
  ◌+◌, ◌≡◌, refl, true, false, not, ◌||◌, some, List, ◌∷◌, [], if◌then◌else◌, arith,
}
use rmw_robotops.Base.Returns.{Returns}
use rmw_robotops.Topic.{bytes}
use rmw_robotops.Events.{blank_event, blank_change}
use rmw_robotops.Queue.Valid.{empty_queue-IsValid}
use rmw_robotops.Queue.Refine.{contents}
use rmw_robotops.State.{is_tracing_enabled}
use rmw_robotops.World.{check_tracing, default_trace_queue_size, context_change_queue_size}
use rmw_robotops.Background.{idle, start_publisher}
use rmw_robotops.Background.Settled.{IsSettled, idle-IsSettled, comes_up, start_publisher_lem}
use rmw_robotops.Loader.{unloaded, load_underlying_rmw, init_name, required_functions}
use rmw_robotops.Loader.Complete.{has_all, listed, load_underlying_rmw_lem}
use rmw_robotops.Process.{Launch, Ending, trace_event, trace_kind}
use rmw_robotops.Process.Init.{rmw_init, rmw_shutdown}
use rmw_robotops.Text.{same_text}
use rmw_robotops.Loader.Complete.{listed}
use rmw_robotops.Loader.{options_init_name}
use rmw_robotops.Process.Options.{through_library}
use rmw_robotops.Process.Options.Errors.{Reaches, after_load, through_library_lem}
use rmw_robotops.Process.Sound.{Initialised, rmw_init-IsSound}
use rmw_robotops.Process.Down.{IsDown}
use rmw_robotops.Process.Shutdown.{rmw_shutdown_lem}
use rmw_robotops.Process.Balance.Lives.{lives, lives_lem}
use rmw_robotops.Tests.{constants}
use rmw_robotops.Process.Flush.{torn_down, stop_trace_publisher_lem}
use rmw_robotops.Process.Stops.{stop_trace_publisher}
use rmw_robotops.Exporter.Drain.{export_all}
use rmw_robotops.Exporter.Message.{convert_trace_event}
use rmw_robotops.Tests.Tally.{
  option_calls, created_count, destroyed_count, tally_calls, linker, platform, tally_counts,
  tally_quiet, fresh_tally, tally_world, process, launch, ending, process-IsSound, running,
  running-IsSound, one_event-IsValid,
}

abbrev two_lives : List (Launch × Ending)
two_lives = (launch, ending) ∷ (launch, ending) ∷ []

lives_lem_example :
    Returns
      (lives constants platform created_count destroyed_count tally_counts tally_quiet two_lives
        process)
      (λ q.
        IsDown q
        × (created_count q.world.outside + destroyed_count process.world.outside
            ≡ created_count process.world.outside + destroyed_count q.world.outside))
lives_lem_example =
    lives_lem constants platform created_count destroyed_count tally_counts tally_quiet two_lives
      process refl (process-IsSound, refl, refl, refl)

rmw_init-IsSound_example :
    Returns
      (rmw_init constants platform launch process)
      (Initialised constants platform launch process)
rmw_init-IsSound_example = rmw_init-IsSound constants platform launch process refl process-IsSound

rmw_shutdown_lem_example :
    let p' = (rmw_shutdown constants platform ending running).1 in
    IsDown p'
    × (contents default_trace_queue_size blank_event p'.world.events ≡ [])
    × (contents context_change_queue_size blank_change p'.world.changes ≡ [])
rmw_shutdown_lem_example =
    rmw_shutdown_lem constants platform ending running running-IsSound one_event-IsValid
      (empty_queue-IsValid context_change_queue_size blank_change (omega arith))

start_publisher_lem_example :
    Returns
      (start_publisher constants tally_calls
        (λ name. 5)
        (trace_kind constants platform)
        check_tracing
        false
        idle
        tally_world)
      (λ r.
        IsSettled r.1
        × (r.1.running
            ≡ comes_up constants tally_calls
                (λ name. 5)
                (trace_kind constants platform)
                check_tracing
                false
                tally_world)
        × (r.0 ≡ (if r.1.running || not true then 0 else 1)))
unfolding check_tracing is_tracing_enabled
start_publisher_lem_example =
    start_publisher_lem constants tally_calls (λ name. 5) (λ e. absurd (omega (arith, e)))
      (λ e. absurd (omega (arith, e))) (trace_kind constants platform) check_tracing false idle
      tally_world idle-IsSettled

load_underlying_rmw_lem_example :
    let (done, l', u') =
      load_underlying_rmw linker (bytes "rmw_fastrtps_cpp") unloaded fresh_tally in
    (done ≡ has_all linker 9 required_functions)
    × (l'.lib ≡ (if done then 9 else 0))
    × (l'.pointers init_name ≡ (if listed init_name required_functions then 5 else 0))
load_underlying_rmw_lem_example =
    load_underlying_rmw_lem linker (bytes "rmw_fastrtps_cpp") init_name unloaded fresh_tally

stop_trace_publisher_lem_example :
    (stop_trace_publisher constants platform ending running).1.world.outside
    ≡ torn_down constants platform
        (λ name. 5)
        running.trace
        (export_all default_trace_queue_size blank_event
          (convert_trace_event (λ n. true))
          (some (λ msg. platform.publish 5 2 (trace_event msg)))
          (contents default_trace_queue_size blank_event running.world.events)
          fresh_tally)
stop_trace_publisher_lem_example =
    stop_trace_publisher_lem constants platform ending running running-IsSound one_event-IsValid
      refl

through_library_lem_example :
    Reaches constants platform option_calls options_init_name
      (λ a u. (0, u))
      (after_load constants platform option_calls options_init_name (λ a u. (0, u)) process)
      (through_library constants platform option_calls options_init_name (λ a u. (0, u)) process)
unfolding listed same_text
through_library_lem_example =
    through_library_lem constants platform option_calls options_init_name (λ a u. (0, u)) process
      process-IsSound refl
