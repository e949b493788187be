-- ===== src/Background/Ledger.antt =====
-- The nodes and the publishers of the middleware that a background publisher creates and destroys.
use rmw_robotops.Base.{ℕ, ◌+◌, ◌≡◌, ◌≢◌, ap, Bool, ◌==◌, if◌then◌else◌, arith}
use rmw_robotops.Base.Returns.{Returns}
use rmw_robotops.Text.{Text}
use rmw_robotops.World.{World, Constants}
use rmw_robotops.Background.{
  Background, Kind, Calls, Pointers, jump, robotops_namespace, create_node_at, create_publisher_at,
  destroy_node_at, destroy_publisher_at, give_up_node, start_thread, open_publisher, open_node,
  start_publisher, close_publisher, close_node, stop_publisher,
}
use rmw_robotops.Background.Settled.{IsSettled}

-- How many nodes and publishers were created and how many destroyed so far, as counted outside.
pub record Counts {U : Type 0} (calls : Calls U) (created destroyed : U → ℕ) : Type 0 where
  pub creates_node :
      (a : ℕ) (name space : Text) (u : U)
      → let (n, v) = calls.create_node a name space u in
        (created v ≡ (if n == 0 then created u else created u + 1)) × (destroyed v ≡ destroyed u)
  pub creates_publisher :
      (a n : ℕ) (topic : Text) (depth : ℕ) (u : U)
      → let (q, v) = calls.create_publisher a n topic depth u in
        (created v ≡ (if q == 0 then created u else created u + 1)) × (destroyed v ≡ destroyed u)
  pub destroys_node :
      (a n : ℕ) (u : U)
      → let v = (calls.destroy_node a n u).1 in
        (created v ≡ created u) × (destroyed v ≡ destroyed u + 1)
  pub destroys_publisher :
      (a n q : ℕ) (u : U)
      → let v = (calls.destroy_publisher a n q u).1 in
        (created v ≡ created u) × (destroyed v ≡ destroyed u + 1)

-- What the file-level variables hold on to.
unfoldable pub held : Background → ℕ
held b = (if b.node == 0 then 0 else 1) + (if b.publisher == 0 then 0 else 1)

module _ {U : Type 0} (created destroyed : U → ℕ) where
  -- What was created since `w` and not destroyed is what is held now and was not held then.
  abbrev pub Accounts : Background → World U → Background → World U → Type 0
  Accounts b w b' w' =
      created w'.outside + destroyed w.outside + held b
      ≡ created w.outside + destroyed w'.outside + held b'

module _ {U : Type 0} (k : Constants) (calls : Calls U) (p : Pointers) (created destroyed : U → ℕ)
    (counts : Counts calls created destroyed) (has_destroy_node : destroy_node_at k calls p ≢ 0)
    (has_destroy_publisher : destroy_publisher_at k calls p ≢ 0) where
  -- No exit of a start of a settled publisher leaks a node or a publisher.
  pub start_publisher-Accounts :
      (kind : Kind) (check : World U → Bool × World U) (starts : Bool) (b : Background)
      (w : World U)
      → (check w).1.outside ≡ w.outside
      → IsSettled b
      → Returns
          (start_publisher k calls p kind check starts b w)
          (λ r. Accounts created destroyed b w r.1 r.2)
  unfolding start_publisher open_node open_publisher start_thread give_up_node jump Returns held
  start_publisher-Accounts kind check starts b w same s =
      let w' = (check w).1 in
      let u0 = w'.outside in
      let made =
        calls.create_node (create_node_at k calls p) kind.node_name robotops_namespace u0 in
      let opened =
        calls.create_publisher (create_publisher_at k calls p) made.0 kind.topic kind.depth
          made.1 in
      let e0 =
        counts.creates_node (create_node_at k calls p) kind.node_name robotops_namespace u0 in
      let e1 =
        counts.creates_publisher (create_publisher_at k calls p) made.0 kind.topic kind.depth
          made.1 in
      let d0 = counts.destroys_node (destroy_node_at k calls p) made.0 made.1 in
      let d1 = counts.destroys_node (destroy_node_at k calls p) made.0 opened.1 in
      let d2 =
        counts.destroys_publisher (destroy_publisher_at k calls p) made.0 opened.0 opened.1 in
      let d3 =
        counts.destroys_node (destroy_node_at k calls p) made.0
          (calls.destroy_publisher (destroy_publisher_at k calls p) made.0 opened.0 opened.1).1 in
      let c0 = ap created same in
      let c1 = ap destroyed same in ground (arith, e0, e1, d0, d1, d2, d3, c0, c1)

  -- Nor does a stop, for a thread that creates and destroys none.
  pub stop_publisher-Accounts :
      (finish : ℕ → World U → World U) (b : Background) (w : World U)
      → created (finish b.publisher w).outside ≡ created w.outside
      → destroyed (finish b.publisher w).outside ≡ destroyed w.outside
      → IsSettled b
      → let (ret, b', w') = stop_publisher k calls p finish b w in
        Accounts created destroyed b w b' w'
  unfolding stop_publisher close_publisher close_node held
  stop_publisher-Accounts finish b w c0 c1 s =
      let u = (finish b.publisher w).outside in
      let v = (calls.destroy_publisher (destroy_publisher_at k calls p) b.node b.publisher u).1 in
      let d0 = counts.destroys_publisher (destroy_publisher_at k calls p) b.node b.publisher u in
      let d1 = counts.destroys_node (destroy_node_at k calls p) b.node v in
      ground (arith, c0, c1, d0, d1)
