-- ===== src/Background.antt =====
-- The starts and stops of the background publishers: src/trace_publisher.cpp,
-- src/trace_context_change_publisher.cpp and src/diagnostics_publisher.cpp have the same two functions
-- but for the names, the depth, the test that allows the start and what the thread does.
pub mod Settled
pub mod Ledger
use rmw_robotops.Base.{ℕ, Bool, true, false, not, ◌&&◌, Option, none, some, ◌==◌, if◌then◌else◌}
use rmw_robotops.Text.{Text}
use rmw_robotops.Topic.{bytes}
use rmw_robotops.World.{World, Constants}

-- The file-level variables of one publisher: the running flag, whether the thread can be joined, and
-- the addresses of its node and its publisher, 0 for `nullptr`.
pub record Background : Type 0 where
  pub running : Bool
  pub thread : Bool
  pub node : ℕ
  pub publisher : ℕ

abbrev pub idle : Background
idle = record { running = false; thread = false; node = 0; publisher = 0 }

-- What the three differ in, and whether the type support of the message is there.
pub record Kind : Type 0 where
  pub node_name : Text
  pub topic : Text
  pub depth : ℕ
  pub type_support : Bool

abbrev pub robotops_namespace : Text
robotops_namespace = bytes "/robotops"

-- The function pointers into the middleware, by the name of the function: an address, or 0.
abbrev pub Pointers : Type 0
Pointers = Text → ℕ

-- What the code at an address does.
pub record Calls (U : Type 0) : Type 0 where
  pub create_node : ℕ → Text → Text → U → ℕ × U
  pub destroy_node : ℕ → ℕ → U → ℕ × U
  pub create_publisher : ℕ → ℕ → Text → ℕ → U → ℕ × U
  pub destroy_publisher : ℕ → ℕ → ℕ → U → ℕ × U

-- A call through a pointer that is not tested: `none` is the fault of a null pointer.
unfoldable pub jump {ℓ} : {A : Type ℓ} → ℕ → A → Option A
jump address result = if address == 0 then none else some result

abbrev pub create_node_name : Text
create_node_name = bytes "rmw_create_node"

abbrev pub destroy_node_name : Text
destroy_node_name = bytes "rmw_destroy_node"

abbrev pub create_publisher_name : Text
create_publisher_name = bytes "rmw_create_publisher"

abbrev pub destroy_publisher_name : Text
destroy_publisher_name = bytes "rmw_destroy_publisher"

module _ {U : Type 0} (k : Constants) (calls : Calls U) (p : Pointers) where
  -- The addresses of the four functions the starts and stops call.
  abbrev pub create_node_at : ℕ
  create_node_at = p create_node_name

  abbrev pub destroy_node_at : ℕ
  destroy_node_at = p destroy_node_name

  abbrev pub create_publisher_at : ℕ
  create_publisher_at = p create_publisher_name

  abbrev pub destroy_publisher_at : ℕ
  destroy_publisher_at = p destroy_publisher_name

  -- The error exits behind the creation of the node.
  pub give_up_node : Background → World U → Option (ℕ × Background × World U)
  unfolding jump
  give_up_node b w =
      let (ret, u) = calls.destroy_node destroy_node_at b.node w.outside in
      jump destroy_node_at (k.ret_error, record b { node = 0 }, record w { outside = u })

  -- The last step of a start; `starts` says whether the constructor of the thread succeeds.
  pub start_thread : Bool → Background → World U → Option (ℕ × Background × World U)
  unfolding jump
  start_thread starts b w =
      if starts
      then some (k.ret_ok, record b { running = true; thread = true }, w)
      else (let (ret, u) =
            calls.destroy_publisher destroy_publisher_at b.node b.publisher w.outside in
          let (ret', v) = calls.destroy_node destroy_node_at b.node u in
          let failed : Background = record {
            running = false;
            thread = b.thread;
            node = 0;
            publisher = 0;
          } in
          if destroy_publisher_at == 0
          then none
          else jump destroy_node_at (k.ret_error, failed, record w { outside = v }))

  -- A start from the creation of the publisher on.
  pub open_publisher : Kind → Bool → Background → World U → Option (ℕ × Background × World U)
  open_publisher kind starts b w =
      if create_publisher_at == 0
      then give_up_node b w
      else (let (q, u) =
            calls.create_publisher create_publisher_at b.node kind.topic kind.depth w.outside in
          let b' = record b { publisher = q } in
          let w' = record w { outside = u } in
          if q == 0 then give_up_node b' w' else start_thread starts b' w')

  -- A start from the creation of the node on.
  pub open_node : Kind → Bool → Background → World U → Option (ℕ × Background × World U)
  open_node kind starts b w =
      if create_node_at == 0
      then some (k.ret_error, b, w)
      else (let (n, u) =
            calls.create_node create_node_at kind.node_name robotops_namespace w.outside in
          let b' = record b { node = n } in
          let w' = record w { outside = u } in
          if n == 0
          then some (k.ret_error, b', w')
          else (if not kind.type_support
              then give_up_node b' w'
              else open_publisher kind starts b' w'))

  -- `check` is the test whether the publisher is wanted, which may change the state of the tracer.
  pub start_publisher :
      Kind
      → (World U → Bool × World U)
      → Bool
      → Background
      → World U
      → Option (ℕ × Background × World U)
  start_publisher kind check starts b w =
      if b.running
      then some (k.ret_ok, b, w)
      else (let (on, w') = check w in
          if not on then some (k.ret_ok, b, w') else open_node kind starts b w')

  -- The end of a stop.
  pub close_publisher : Background → World U → Background × World U
  close_publisher b w =
      if not (b.publisher == 0) && not (destroy_publisher_at == 0)
      then (
        record b { publisher = 0 },
        record w {
          outside = (calls.destroy_publisher destroy_publisher_at b.node b.publisher w.outside).1;
        },
      )
      else (b, w)

  pub close_node : Background → World U → Background × World U
  close_node b w =
      if not (b.node == 0) && not (destroy_node_at == 0)
      then (
        record b { node = 0 },
        record w { outside = (calls.destroy_node destroy_node_at b.node w.outside).1 },
      )
      else (b, w)

  -- `finish` is what the thread still does once the flag is cleared, up to its end, with the address
  -- of its publisher. The join is taken to succeed.
  pub stop_publisher : (ℕ → World U → World U) → Background → World U → ℕ × Background × World U
  stop_publisher finish b w =
      if not b.running
      then (k.ret_ok, b, w)
      else (let joined = if b.thread then finish b.publisher w else w in
          let (b1, w1) = close_publisher (record b { running = false; thread = false }) joined in
          let (b2, w2) = close_node b1 w1 in (k.ret_ok, b2, w2))
