-- ===== src/Process/Flush.antt =====
-- What the exporters still publish when they are stopped, before their publishers go.
use rmw_robotops.Base.{ℕ, ◌≡◌, refl, ap, ◌∙◌, true, false, not, Option, some, ◌==◌, arith}
use rmw_robotops.Text.{same_text}
use rmw_robotops.Queue.Valid.{IsValid}
use rmw_robotops.Queue.Refine.{contents}
use rmw_robotops.Events.{blank_event}
use rmw_robotops.World.{Constants, default_trace_queue_size}
use rmw_robotops.Exporter.Drain.{export_all, publisher_thread_func_lem}
use rmw_robotops.Exporter.Message.{TraceMessage, convert_trace_event}
use rmw_robotops.Background.{Background, Pointers, destroy_node_name, destroy_publisher_name}
use rmw_robotops.Background.Settled.{stop_publisher-outside}
use rmw_robotops.Loader.{publish_name}
use rmw_robotops.Loader.Complete.{listed, pointer_set}
use rmw_robotops.Process.{Platform, Process, Ending, Outgoing, sender, trace_event}
use rmw_robotops.Process.Stops.{finish_trace, stop_trace_publisher}
use rmw_robotops.Process.Sound.{IsSound}

module _ {U F : Type 0} (k : Constants) (e : Platform U F) where
  -- The destruction of a publisher and then of its node.
  pub torn_down : Pointers → Background → U → U
  torn_down p b u =
      (e.calls.destroy_node (p destroy_node_name) b.node
        (e.calls.destroy_publisher (p destroy_publisher_name) b.node b.publisher u).1).1

  sender_set :
      {M : Type 0} (wrap : M → Outgoing) (p : Pointers) (publisher : ℕ)
      → (publisher == 0) ≡ false
      → (p publish_name == 0) ≡ false
      → sender k e wrap p publisher ≡ some (λ msg. e.publish (p publish_name) publisher (wrap msg))
  unfolding sender
  sender_set wrap p publisher h g = rw (h, g) refl

  library_open : (p : Process U) → IsSound p → p.trace.running ≡ true → (p.loader.lib == 0) ≡ false
  library_open p s on = ground (arith, s.needs_library, on)

  -- In a sound process with a valid queue, a running trace publisher and no producer about, the stop
  -- publishes each event of the queue through that publisher, once and oldest first, as far as it
  -- converts, and only then destroys the publisher and after it its node.
  pub stop_trace_publisher_lem :
      (ending : Ending) (p : Process U)
      → IsSound p
      → IsValid default_trace_queue_size p.world.events
      → p.trace.running ≡ true
      → let pointers = p.loader.pointers in
        let publish : Option (TraceMessage → U → U) =
          some (λ msg. e.publish (pointers publish_name) p.trace.publisher (trace_event msg)) in
        (stop_trace_publisher k e ending p).1.world.outside
        ≡ torn_down pointers p.trace (
            export_all default_trace_queue_size blank_event
              (convert_trace_event e.sequence_init)
              publish
              (contents default_trace_queue_size blank_event p.world.events)
              p.world.outside)
  unfolding stop_trace_publisher finish_trace torn_down listed same_text
  stop_trace_publisher_lem ending p s v on =
      let l = p.loader in
      let publisher = p.trace.publisher in
      let open_lib = library_open p s on in
      let node_set = pointer_set l destroy_node_name s.complete open_lib refl in
      let publisher_set = pointer_set l destroy_publisher_name s.complete open_lib refl in
      let publish_set = pointer_set l publish_name s.complete open_lib refl in
      let send : sender k e trace_event l.pointers publisher
          ≡ some (λ msg. e.publish (l.pointers publish_name) publisher (trace_event msg)) =
        sender_set trace_event l.pointers publisher (s.trace_settled.publisher_eq ∙ ap not on)
          (ground (arith, publish_set)) in
      let drained =
        publisher_thread_func_lem default_trace_queue_size blank_event
          (convert_trace_event e.sequence_init) (sender k e trace_event l.pointers publisher)
          ending.trace_rounds p.world.events p.world.outside v in
      let sent =
        drained.1
        ∙ ap
            (λ f.
              export_all default_trace_queue_size blank_event (convert_trace_event e.sequence_init)
                f (contents default_trace_queue_size blank_event p.world.events) p.world.outside)
            send in
      stop_publisher-outside k e.calls l.pointers node_set publisher_set
        (finish_trace k e ending l.pointers) p.trace p.world on s.trace_settled
      ∙ ap (torn_down l.pointers p.trace) sent
