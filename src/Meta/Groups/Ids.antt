-- ===== src/Meta/Groups/Ids.antt =====
-- The ids of a new group's shards, and the nodes that may own them.
use chronus.Base.{
  ℕ, zero, suc, ◌+◌, ◌^◌, ◌<◌, ◌≡◌, refl, ap, ◌∙◌, false, List, [], ◌∷◌, arith, All, Distinct,
  contains, length, ==_iff, ◌&&◌, not, incr64, Bool-cases, inl, inr,
}
use chronus.Meta.Types.{NodeInfo, ShardInfo}
use chronus.Meta.Groups.{available_nodes, new_shards, round_robin}
use chronus.Meta.Delete.Orphans.{shard_ids}
use chronus.Meta.Groups.RoundRobin.{Fresh}

-- The ids of nodes, in their order.
abbrev pub node_ids : List NodeInfo → List ℕ
node_ids [] = []
node_ids (n ∷ ns) = n.id ∷ node_ids ns

pub length-new_shards : (k max : ℕ) → length (new_shards k max).0 ≡ k
unfolding new_shards
length-new_shards zero max = refl
length-new_shards (suc k) max = ap suc (length-new_shards k (incr64 max))

pub new_shards-Fresh : (k max : ℕ) → All Fresh (new_shards k max).0
unfolding new_shards
new_shards-Fresh zero max = tt
new_shards-Fresh (suc k) max = (refl, new_shards-Fresh k (incr64 max))

-- The ids that follow the largest one.
abbrev pub ids_from : ℕ → ℕ → List ℕ
ids_from max zero = []
ids_from max (suc k) = suc max ∷ ids_from (suc max) k

available_nodes-absent :
    (a : ℕ) (freezed : List ℕ) (ns : List NodeInfo)
    → contains a (node_ids ns) ≡ false
    → contains a (available_nodes freezed ns) ≡ false
unfolding available_nodes
available_nodes-absent a freezed [] h = refl
available_nodes-absent a freezed (n ∷ ns) h = ground (arith, available_nodes-absent a freezed ns)

pub available_nodes-Distinct :
    (freezed : List ℕ) (ns : List NodeInfo)
    → Distinct (node_ids ns)
    → Distinct (available_nodes freezed ns)
unfolding available_nodes
available_nodes-Distinct freezed [] h = tt
available_nodes-Distinct freezed (n ∷ ns) h = elim (Bool-cases (contains n.id freezed)) [
  | inl frozen ↦ rw frozen (available_nodes-Distinct freezed ns h.1)
  | inr free ↦
      rw free (available_nodes-absent n.id freezed ns h.0, available_nodes-Distinct freezed ns h.1)
]

-- The available nodes are those that are there and are not frozen.
pub contains-available_nodes :
    (a : ℕ) (freezed : List ℕ) (ns : List NodeInfo)
    → contains a (available_nodes freezed ns)
      ≡ (contains a (node_ids ns) && not (contains a freezed))
unfolding available_nodes
contains-available_nodes a freezed [] = refl
contains-available_nodes a freezed (n ∷ ns) =
    ground (arith, contains-available_nodes a freezed ns, ==_iff n.id a)

-- While the ids do not run out, the shards get the ids that follow the largest one.
pub new_shards-ids :
    (k max : ℕ)
    → max + k < 2 ^ 64
    → (shard_ids (new_shards k max).0 ≡ ids_from max k) × ((new_shards k max).1 ≡ max + k)
unfolding new_shards
new_shards-ids zero max room = (refl, omega arith)
new_shards-ids (suc k) max room =
    let next : incr64 max ≡ suc max = omega arith in
    let (ids, last) = new_shards-ids k (suc max) (omega arith) in
    rw next (ap (◌∷◌ (suc max)) ids, last ∙ omega arith)

pub round_robin-ids :
    (nodes : List ℕ) (i r : ℕ) (ss : List ShardInfo)
    → shard_ids (round_robin nodes i r ss) ≡ shard_ids ss
unfolding round_robin
round_robin-ids nodes i r [] = refl
round_robin-ids nodes i r (s ∷ ss) = ap (◌∷◌ s.id) (round_robin-ids nodes (i + r) r ss)
