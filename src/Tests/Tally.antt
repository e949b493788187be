-- ===== src/Tests/Tally.antt =====
-- A machine that counts what it creates and destroys, and processes on it.
use rmw_robotops.Base.{ℕ, ◌+◌, refl, true, false, none, [], arith}
use rmw_robotops.Events.{blank_event}
use rmw_robotops.Queue.Valid.{IsValid, empty_queue-IsValid}
use rmw_robotops.Config.{fallback_config}
use rmw_robotops.World.{World, default_trace_queue_size}
use rmw_robotops.Background.{Calls, idle}
use rmw_robotops.Background.Settled.{idle-IsSettled}
use rmw_robotops.Background.Ledger.{Counts}
use rmw_robotops.Loader.{Linker, unloaded}
use rmw_robotops.Loader.Complete.{IsComplete}
use rmw_robotops.Diagnostics.{Floats, ClockSyncMethods}
use rmw_robotops.Diagnostics.Clock.{ClockSources}
use rmw_robotops.Diagnostics.Thread.{Timer}
use rmw_robotops.Diagnostics.Report.{ReportState}
use rmw_robotops.Process.{Platform, Process, Launch, Ending}
use rmw_robotops.Process.Options.{OptionCalls}
use rmw_robotops.Process.Sound.{IsSound}
use rmw_robotops.Process.Balance.{Quiet}
use rmw_robotops.Tests.{start}

pub record Tally : Type 0 where
  pub created : ℕ
  pub destroyed : ℕ
  pub sent : ℕ

abbrev pub created_count : Tally → ℕ
created_count m = m.created

abbrev pub destroyed_count : Tally → ℕ
destroyed_count m = m.destroyed

abbrev pub create : Tally → ℕ × Tally
create m = (m.created + 1, record m { created = m.created + 1 })

abbrev pub destroy : Tally → ℕ × Tally
destroy m = (0, record m { destroyed = m.destroyed + 1 })

abbrev pub tally_calls : Calls Tally
tally_calls = record {
  create_node = λ a name space. create;
  destroy_node = λ a n. destroy;
  create_publisher = λ a n topic depth. create;
  destroy_publisher = λ a n q. destroy;
}

abbrev pub linker : Linker Tally
linker = record { dlopen = λ name u. (9, u); dlsym = λ lib name. 5; dlclose = λ lib u. u }

abbrev pub floats : Floats ℕ
floats = record { atof = λ text. 0; to_int64_ns = λ x. x; to_uint64_ns = λ x. x; zero_seconds = 0 }

abbrev pub methods : ClockSyncMethods
methods = record { none_method = 0; ntp = 1; ptp = 2 }

abbrev pub platform : Platform Tally ℕ
platform = record {
  linker = linker;
  calls = tally_calls;
  publish = λ a q m u. record u { sent = u.sent + 1 };
  init = λ a u. (0, u);
  shutdown = λ a u. (0, u);
  trace_event_support = true;
  context_change_support = true;
  report_support = true;
  sequence_init = λ n. true;
  config = record fallback_config { diagnostics_enabled = true; interval_secs = 10 };
  floats = floats;
  methods = methods;
}

pub tally_counts : Counts tally_calls created_count destroyed_count
tally_counts = record {
  creates_node = λ a name space u. (ground arith, refl);
  creates_publisher = λ a n topic depth u. (ground arith, refl);
  destroys_node = λ a n u. (refl, refl);
  destroys_publisher = λ a n q u. (refl, refl);
}

pub tally_quiet : Quiet platform created_count destroyed_count
tally_quiet = record {
  publish_quiet = λ a q m u. (refl, refl);
  init_quiet = λ a u. (refl, refl);
  shutdown_quiet = λ a u. (refl, refl);
  dlopen_quiet = λ name u. (refl, refl);
  dlclose_quiet = λ lib u. (refl, refl);
}

abbrev pub no_sources : ClockSources
no_sources = record { pmc = none; chronyc = none; synchronized = false }

abbrev pub fresh_tally : Tally
fresh_tally = record { created = 0; destroyed = 0; sent = 0 }

abbrev pub tally_world : World Tally
tally_world = record {
  outside = fresh_tally;
  thread = start.thread;
  health = start.health;
  events = start.events;
  changes = start.changes;
  publishers = [];
  subscriptions = [];
  clients = [];
  services = [];
  pending_requests = [];
}

abbrev pub report_state : ReportState
report_state = record {
  node_info = none;
  cpu_state = record { last_cpu_time = 0; last_cpu_check_time = 0 };
}

abbrev pub timer : Timer
timer = record {
  next_publish_time = 0;
  next_clock_check_time = 0;
  cached_clock_info = record {
    method = 0;
    estimated_skew_ns = 0;
    skew_uncertainty_ns = 0;
    acceptable = true;
  };
}

abbrev pub process : Process Tally
process = record {
  world = tally_world;
  loader = unloaded;
  trace = idle;
  context = idle;
  diagnostics = idle;
  timer = timer;
  report_state = report_state;
}

abbrev pub launch : Launch
launch = record {
  trace_starts = true;
  context_starts = true;
  diagnostics_starts = true;
  now = 0;
  sources = no_sources;
}

abbrev pub ending : Ending
ending = record { trace_rounds = 1; context_rounds = 0; diagnostics_rounds = [] }

unloaded-IsComplete : IsComplete unloaded
unfolding IsComplete
unloaded-IsComplete name = refl

pub process-IsSound : IsSound process
process-IsSound = record {
  complete = unloaded-IsComplete;
  trace_settled = idle-IsSettled;
  context_settled = idle-IsSettled;
  diagnostics_settled = idle-IsSettled;
  needs_library = refl;
}

-- The process with its publishers up and one event in the queue of traces.
abbrev pub running : Process Tally
running = record {
  world = record tally_world { events = record (start.events) { tail = 1 } };
  loader = record { lib = 9; pointers = λ name. 5 };
  trace = record { running = true; thread = true; node = 1; publisher = 2 };
  context = record { running = true; thread = true; node = 3; publisher = 4 };
  diagnostics = idle;
  timer = timer;
  report_state = report_state;
}

running-IsComplete : IsComplete running.loader
unfolding IsComplete
running-IsComplete name = ground arith

pub running-IsSound : IsSound running
running-IsSound = record {
  complete = running-IsComplete;
  trace_settled = record { thread_eq = refl; node_eq = refl; publisher_eq = refl };
  context_settled = record { thread_eq = refl; node_eq = refl; publisher_eq = refl };
  diagnostics_settled = idle-IsSettled;
  needs_library = refl;
}

pub one_event-IsValid : IsValid default_trace_queue_size running.world.events
one_event-IsValid =
    let empty = empty_queue-IsValid default_trace_queue_size blank_event (omega arith) in
    record { slots = empty.slots; head_in = empty.head_in; tail_in = omega arith }

abbrev pub option_calls : OptionCalls Tally
option_calls = record {
  zero_options = λ a. record {
    instance_id = 0;
    implementation_identifier = [];
    allocator = 0;
    impl = 0;
    enclave = 0;
    domain_id = 0;
    security_options = 0;
    localhost_only = 0;
  };
  options_init = λ a options allocator u. (0, u);
  options_copy = λ a src dst u. (0, u);
  options_fini = λ a options u. (0, u);
  default_allocator = 1;
  default_domain_id = 0;
  zero_security_options = 0;
  localhost_only_default = 0;
}
