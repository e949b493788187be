-- ===== src/Background/Settled.antt =====
-- When a background publisher runs, and what its file-level variables hold while it does and does not.
use rmw_robotops.Base.{
  ℕ, ◌≡◌, ◌≢◌, refl, Bool, true, false, not, ◌&&◌, ◌||◌, ◌==◌, if◌then◌else◌, arith,
}
use rmw_robotops.Base.Returns.{Returns}
use rmw_robotops.Queue.{LockFreeQueue}
use rmw_robotops.Events.{TraceEvent, TraceContextChangeEvent}
use rmw_robotops.World.{World, Constants}
use rmw_robotops.Background.{
  Background, Kind, Calls, Pointers, jump, idle, robotops_namespace, create_node_at,
  create_publisher_at, destroy_node_at, destroy_publisher_at, give_up_node, start_thread,
  open_publisher, open_node, start_publisher, close_publisher, close_node, stop_publisher,
}

-- Between two calls: a thread, a node and a publisher if it runs, and none of them if not.
pub record IsSettled (b : Background) : Type 0 where
  pub thread_eq : b.thread ≡ b.running
  pub node_eq : (b.node == 0) ≡ not b.running
  pub publisher_eq : (b.publisher == 0) ≡ not b.running

pub idle-IsSettled : IsSettled idle
idle-IsSettled = record { thread_eq = refl; node_eq = refl; publisher_eq = refl }

pub stopped_idle : (b : Background) → IsSettled b → b.running ≡ false → b ≡ idle
stopped_idle b s off = ground (arith, s, off)

-- The two queues, which only their own exporters empty.
abbrev pub queues :
    {U : Type 0} → World U → LockFreeQueue TraceEvent × LockFreeQueue TraceContextChangeEvent
queues w = (w.events, w.changes)

module _ {U : Type 0} (k : Constants) (calls : Calls U) (p : Pointers) where
  -- Whether a start makes it to a running thread, as one condition on what the middleware answers.
  pub comes_up : Kind → (World U → Bool × World U) → Bool → World U → Bool
  comes_up kind check starts w =
      let (on, w') = check w in
      let (n, u) =
        calls.create_node (create_node_at k calls p) kind.node_name robotops_namespace w'.outside in
      let (q, v) =
        calls.create_publisher (create_publisher_at k calls p) n kind.topic kind.depth u in
      on
      && not (create_node_at k calls p == 0)
      && not (n == 0)
      && kind.type_support
      && not (create_publisher_at k calls p == 0)
      && not (q == 0)
      && starts

  pub stop_publisher-stopped :
      (finish : ℕ → World U → World U) (b : Background) (w : World U)
      → b.running ≡ false
      → ◌≡◌ {A = ℕ × Background × World U} (stop_publisher k calls p finish b w) (k.ret_ok, b, w)
  unfolding stop_publisher
  stop_publisher-stopped finish b w off = rw off refl

  pub stop_publisher-queues :
      (finish : ℕ → World U → World U) (b : Background) (w : World U)
      → IsSettled b
      → queues (stop_publisher k calls p finish b w).2
        ≡ (if b.running then queues (finish b.publisher w) else queues w)
  unfolding stop_publisher close_publisher close_node
  stop_publisher-queues finish b w s = ground arith

  module _ (has_destroy_node : destroy_node_at k calls p ≢ 0)
      (has_destroy_publisher : destroy_publisher_at k calls p ≢ 0) where
    -- For a settled publisher and loaded functions to destroy nodes and publishers, a start always
    -- returns, leaves the publisher settled, has it running just if it ran before or every step of the
    -- start succeeds, and reports an error just if the publisher is wanted and does not run.
    pub start_publisher_lem :
        (kind : Kind) (check : World U → Bool × World U) (starts : Bool) (b : Background)
        (w : World U)
        → IsSettled b
        → Returns (start_publisher k calls p kind check starts b w) (λ r.
          IsSettled r.1
          × (r.1.running ≡ (b.running || comes_up kind check starts w))
          × (r.0 ≡ (if r.1.running || not (check w).0 then k.ret_ok else k.ret_error)))
    unfolding start_publisher open_node open_publisher start_thread give_up_node jump Returns
        comes_up
    start_publisher_lem kind check starts b w s = ground arith

    -- For a settled publisher and loaded functions to destroy nodes and publishers, a stop reports
    -- success and leaves nothing: no running flag, no thread, no node and no publisher.
    pub stop_publisher_lem :
        (finish : ℕ → World U → World U) (b : Background) (w : World U)
        → IsSettled b
        → let (ret, b', w') = stop_publisher k calls p finish b w in (ret ≡ k.ret_ok) × (b' ≡ idle)
    unfolding stop_publisher close_publisher close_node
    stop_publisher_lem finish b w s = ground arith

    pub stop_publisher-outside :
        (finish : ℕ → World U → World U) (b : Background) (w : World U)
        → b.running ≡ true
        → IsSettled b
        → (stop_publisher k calls p finish b w).2.outside
          ≡ (calls.destroy_node
              (destroy_node_at k calls p)
              b.node
              (calls.destroy_publisher
                (destroy_publisher_at k calls p)
                b.node
                b.publisher
                (finish b.publisher w).outside).1).1
    unfolding stop_publisher close_publisher close_node
    stop_publisher-outside finish b w on s = ground arith
