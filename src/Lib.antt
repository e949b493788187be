-- ===== src/Lib.antt =====
-- The tracing middleware of rmw_robotops: a layer between a ROS 2 program and its real middleware
-- which passes every call on, and beside it records trace events in bounded queues.
--
-- Parts, and the files that model them (paths from the repository's root):
--
-- - Queue: `LockFreeQueue` of include/rmw_robotops/trace_event_queue.hpp and the same ring in
--   src/trace_context_change_publisher.cpp. `try_push`, `try_pop`, `size` and `is_empty` run in one
--   thread; Queue/Fifo is the abstract queue, Queue/Refine relates the two. Queue/Race is a step
--   relation for any number of producers and the one consumer.
-- - SpanId: src/span_id_generator.cpp. Context: src/trace_context.cpp and its header; a `Thread`
--   holds the thread-local variables.
-- - Topic, Number, Introspection, Hash: src/utils.cpp and include/rmw_robotops/utils.hpp (the topic
--   names of actions, the domain id, the lookup of introspection members, the content hash), and
--   the number parser of src/config.cpp.
-- - Config: src/config.cpp, the layers of the configuration. State: the switch of the tracer and its
--   counters, from the end of src/config.cpp, include/rmw_robotops/config.hpp and
--   include/rmw_robotops/diagnostics_metrics.hpp.
-- - Events, World: the two event structs, the state that the calls share, and what they read from
--   outside. Endpoint and Rpc: the caches of metadata, and the pushes.
-- - Publish, Take, Client, Service: the intercepted calls of src/rmw_publisher.cpp,
--   src/rmw_subscription.cpp, src/rmw_client.cpp and src/rmw_service.cpp. Each call takes a `World` and
--   returns its results with the next `World`. A handler is split as the source numbers its steps: what
--   comes before the real call, the real call, and what comes after it.
-- - Session: sequences of these calls on one thread.
-- - Exporter: the threads of src/trace_publisher.cpp and src/trace_context_change_publisher.cpp that
--   drain the queues, and the conversion of an event to its message.
-- - Background: the start and the stop that these two files and src/diagnostics_publisher.cpp share.
--   Lines, Diagnostics: the rest of src/diagnostics_publisher.cpp. Lines has the scans over text,
--   Diagnostics/Clock the checks of the clock, Diagnostics/Proc memory and processor time,
--   Diagnostics/Report the message and Diagnostics/Thread the loop. Diagnostics/Ptp and
--   Diagnostics/Chrony have what the checks of the clock find in a line.
-- - Loader: the loading of the middleware in src/rmw_init.cpp. Process: the rest of that file and
--   src/rmw_node.cpp, over a `Process` of a `World`, the loader and the three background publishers.
-- - Stubs: src/rmw_stubs.cpp. Stubs/Table lists its functions, with those of ROS 2 Iron.
--
-- How the code is read. Texts are the bytes of C strings, and `fill n` is a copy into a buffer of `n`
-- bytes. Words of 32 and 64 bits wrap where the code lets them. Addresses are numbers, 0 for a null
-- pointer. The calls of the underlying middleware, the memory of the process, the generated accessors
-- of messages, the YAML parser, the environment, the clock and xxHash are arguments. The retry loop of
-- a push has one hundred attempts, as in the source, and an argument says on which of them a weak
-- exchange fails for no reason. The last loop of a thread has as many rounds as its queue has slots,
-- which is more than the queue can hold events. A call runs as one unit in its thread; interleavings
-- are modelled for the queue only, with sequentially consistent accesses.
--
-- In Background, Loader, Process and Stubs a function pointer is an address, and an argument says what
-- the code at an address does. A call through a pointer that the code does not test gives `none` if the
-- pointer is null. The run of a background thread stands in the stop that ends it: the rounds it still
-- makes are an argument, and no producer runs beside it. A join succeeds. The arithmetic on
-- floating-point numbers is an argument, and the output of commands and the files of /proc are texts.
--
-- Arguments that a call only hands through (the allocation, the message information) belong to the
-- argument that stands for the underlying call. A request header is whether it is null and its
-- sequence number. In Queue/Race a
-- pop of the one consumer is one step. The two quotients of a report are pairs of numbers.
--
-- Hash/Spec describes the content hash without the code: FNV-1a, the widths of the ROS 2 types in
-- bits, and the octets of a message. `TypeId` has the types that the source names; `other` stands for
-- the ones it leaves to a `default` case, which have no octets in that description. Addresses of
-- fields do not wrap.
--
-- Not modelled: exceptions in the bodies that the source guards by `catch (...)` (only an allocation
-- that fails would raise one, and the constructor of a thread, which is modelled), tracepoints, log
-- messages, the quality-of-service settings of the background publishers but for their depth, and the
-- demo agent.
pub mod Background
pub mod Loader
pub mod Process
pub mod Stubs
pub mod Lines
pub mod Base
pub mod Queue
pub mod SpanId
pub mod Text
pub mod Context
pub mod Topic
pub mod Number
pub mod Config
pub mod Diagnostics
pub mod State
pub mod Hash
pub mod Events
pub mod Introspection
pub mod World
pub mod Endpoint
pub mod Publish
pub mod Take
pub mod Rpc
pub mod Client
pub mod Service
pub mod Session
pub mod Exporter
pub mod Tests
