-- ===== src/Endpoint/Lifecycle.antt =====
-- The cached metadata of a publisher, from its creation to its destruction.
use rmw_robotops.Base.{ℕ, false, Option, none, some, ◌≡◌, ◌≢◌, ◌==◌, if◌then◌else◌, ne→==}
use rmw_robotops.Base.Assoc.{find-put, find-erase-put}
use rmw_robotops.Text.{Text, fill}
use rmw_robotops.Events.{max_node_name_length}
use rmw_robotops.Introspection.{MessageTypeSupport, resolve_introspection_members}
use rmw_robotops.Endpoint.{
  Node, Create, Destroy, type_text, cached, store_publisher_metadata, get_publisher_metadata,
  remove_publisher_metadata, rmw_create_publisher, rmw_destroy_publisher,
}
use rmw_robotops.World.{World, Readings, Constants, TopicMetadata}

module _ {U : Type 0} (k : Constants) (r : Readings) (create : Create U) (destroy : Destroy U)
    (node : Node) (type_support : Option MessageTypeSupport) (topic : Text) (w : World U)
    (made : (create w.outside node type_support topic).0 ≢ 0) where
  abbrev pub metadata : TopicMetadata
  metadata =
      let found = (resolve_introspection_members type_support false).0 in
      record {
        node_name = fill max_node_name_length node.name;
        node_namespace = fill max_node_name_length node.namespace;
        message_type = type_text r found;
        members = cached found;
      }

  -- For a middleware that returns a publisher which is not null: once it is created, its metadata are
  -- found under it, and once it is destroyed, none are; those of any other publisher stay what they
  -- were throughout.
  pub publisher_lifecycle :
      (other : ℕ)
      → let (p, w1) = rmw_create_publisher r (some create) node type_support topic w in
        let w2 = (rmw_destroy_publisher k (some destroy) node p w1).1 in
        (get_publisher_metadata other w1
          ≡ (if p == other then some metadata else get_publisher_metadata other w))
        × (get_publisher_metadata other w2
            ≡ (if p == other then none else get_publisher_metadata other w))
  unfolding rmw_create_publisher rmw_destroy_publisher store_publisher_metadata
      remove_publisher_metadata get_publisher_metadata
  publisher_lifecycle other =
      let p = (create w.outside node type_support topic).0 in
      rw (ne→== p 0 made)
        (find-put w.publishers p other metadata, find-erase-put w.publishers p other metadata)
