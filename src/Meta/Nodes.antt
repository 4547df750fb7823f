-- ===== src/Meta/Nodes.antt =====
-- services/meta/data.go: DataNode, CreateDataNode, MetaNode, CreateMetaNode, DeleteMetaNode and the
-- freezing of data nodes. `sort.Sort(meta.NodeInfos(..))` orders by a `Less` of influxdb: the
-- sorting is a parameter.
pub mod Freeze
pub mod Ids
use chronus.Base.{
  ℕ, ◌||◌, Bool, true, false, ◌≡◌, List, [], ◌∷◌, ◌++◌, Option, none, some, String, Outcome, ok,
  err, map, length, ◌==◌, ◌==ₛ◌, if◌then◌else◌, incr64,
}
use chronus.Meta.Types.{NodeInfo, Data, Method, node_exists, node_not_found, node_id_required}

-- The first node with the id, as DataNode, MetaNode and existInNodes look it up.
unfoldable pub exist_in_nodes : List NodeInfo → ℕ → Option NodeInfo
exist_in_nodes [] id = none
exist_in_nodes (n ∷ ns) id = if n.id == id then some n else exist_in_nodes ns id

unfoldable pub data_node : ℕ → Data → Option NodeInfo
data_node id d = exist_in_nodes d.data_nodes id

unfoldable pub meta_node : ℕ → Data → Option NodeInfo
meta_node id d = exist_in_nodes d.meta_nodes id

-- `n.TCPHost == tcpHost || n.Host == host`
abbrev pub same_node : String → String → NodeInfo → Bool
same_node host tcp_host n = n.tcp_host ==ₛ tcp_host || n.host ==ₛ host

-- Does one of the nodes pass the test?
unfoldable pub any_node : (NodeInfo → Bool) → List NodeInfo → Bool
any_node p [] = false
any_node p (n ∷ ns) = p n || any_node p ns

-- The id of the first node that passes the test, 0 for none.
unfoldable pub existing_id : (NodeInfo → Bool) → List NodeInfo → ℕ
existing_id p [] = 0
existing_id p (n ∷ ns) = if p n then n.id else existing_id p ns

-- The nodes that DeleteDataNode and DeleteMetaNode keep.
unfoldable pub without_node : ℕ → List NodeInfo → List NodeInfo
without_node id [] = []
without_node id (n ∷ ns) = let rest = without_node id ns in if n.id == id then rest else n ∷ rest

unfoldable pub delete_meta_node : ℕ → Method (Unit {0})
unfolding without_node
delete_meta_node id d =
    if id == 0
    then (err node_id_required, d)
    else let nodes = without_node id d.meta_nodes in
      if length nodes == length d.meta_nodes
      then (err node_not_found, d)
      else (ok tt, record d { meta_nodes = nodes })

module _ (sort_nodes : List NodeInfo → List NodeInfo) where
  unfoldable pub create_data_node : String → String → Method ℕ
  create_data_node host tcp_host d =
      if any_node (same_node host tcp_host) d.data_nodes
      then (err node_exists, d)
      else let existing = existing_id (same_node host tcp_host) d.meta_nodes in
        let fresh = existing == 0 in
        let id = if fresh then incr64 d.max_node_id else existing in
        let n : NodeInfo = record { id = id; host = host; tcp_host = tcp_host } in
        (
          ok id,
          record d {
            max_node_id = if fresh then incr64 d.max_node_id else d.max_node_id;
            data_nodes = sort_nodes (d.data_nodes ++ n ∷ []);
          },
        )

  unfoldable pub create_meta_node : String → String → Method ℕ
  create_meta_node http_addr tcp_addr d =
      if any_node (λ n. n.host ==ₛ http_addr) d.meta_nodes
      then (err node_exists, d)
      else let existing = existing_id (λ n. n.tcp_host ==ₛ tcp_addr) d.data_nodes in
        let fresh = existing == 0 in
        let id = if fresh then incr64 d.max_node_id else existing in
        let n : NodeInfo = record { id = id; host = http_addr; tcp_host = tcp_addr } in
        (
          ok id,
          record d {
            max_node_id = if fresh then incr64 d.max_node_id else d.max_node_id;
            meta_nodes = sort_nodes (d.meta_nodes ++ n ∷ []);
          },
        )
