-- ===== src/Meta/Delete.antt =====
-- services/meta/data.go: DeleteDataNode. The loops over databases, policies and groups return at
-- the first error and leave what they have already changed. `now id` is what `time.Now()` answers
-- when the loop stands at the shard group `id`.
pub mod Relinquish
pub mod Orphans
pub mod Reassign
pub mod Settled
use chronus.Base.{
  ℕ, suc, ◌+◌, Bool, true, false, ◌≡◌, List, [], ◌∷◌, ◌++◌, Option, none, some, Outcome, ok, err,
  panic, length, ◌==◌, ◌||◌, if◌then◌else◌,
}
use chronus.Meta.Types.{
  ShardInfo, ShardGroupInfo, RetentionPolicyInfo, DatabaseInfo, Data, Method, Error,
  node_id_required, node_not_found, no_node_can_be_reassigned,
}
use chronus.Meta.Nodes.{without_node}
use chronus.Meta.Nodes.Freeze.{get_freezed, remove_at}
use chronus.Meta.Owners.{Item, bump, delete, new_shard_owner}

-- The loop over `s.Owners` from index `i` on: `nodeIdx` and the frequencies.
unfoldable pub scan_owners : ℕ → ℕ → List ℕ → Option ℕ → List Item → Option ℕ × List Item
scan_owners id i [] idx freqs = (idx, freqs)
scan_owners id i (o ∷ os) idx freqs =
    scan_owners id (suc i) os (if o == id then some i else idx) (bump o freqs)

-- Relinquish the ownership at `nodeIdx`, if it is not -1.
unfoldable pub relinquish : Option ℕ → ShardInfo → ShardInfo
relinquish none s = s
relinquish (some i) s = record s { owners = remove_at i s.owners }

-- What the loop over `sg.Shards` makes.
pub record Scan : Type 0 where
  pub shards : List ShardInfo
  pub orphans : List ShardInfo
  pub freqs : List Item

unfoldable pub scan_shards : ℕ → List ShardInfo → List Item → Scan
scan_shards id [] freqs = record { shards = []; orphans = []; freqs = freqs }
scan_shards id (s ∷ ss) freqs =
    let seen = scan_owners id 0 s.owners none freqs in
    let s' = relinquish seen.0 s in
    let rest = scan_shards id ss seen.1 in
    record {
      shards = s' ∷ rest.shards;
      orphans = if length s'.owners == 0 then s' ∷ rest.orphans else rest.orphans;
      freqs = rest.freqs;
    }

-- The first shard with the id gets the owner.
unfoldable pub add_owner : ℕ → ℕ → List ShardInfo → List ShardInfo
add_owner id owner [] = []
add_owner id owner (s ∷ ss) =
    if s.id == id
    then record s { owners = s.owners ++ owner ∷ [] } ∷ ss
    else s ∷ add_owner id owner ss

unfoldable pub has_shard : ℕ → List ShardInfo → Bool
has_shard id [] = false
has_shard id (s ∷ ss) = s.id == id || has_shard id ss

-- The loop over `orphanedShards`.
unfoldable pub reassign :
    List ShardInfo → List ShardInfo → List Item → Outcome Error (Unit {0}) × List ShardInfo
reassign [] shards freqs = (ok tt, shards)
reassign (orphan ∷ rest) shards freqs =
    let owner = new_shard_owner freqs in
    let go =
      reassign rest (add_owner orphan.id owner shards)
        (if has_shard orphan.id shards then bump owner freqs else freqs) in
    if owner == 0 then (err no_node_can_be_reassigned, shards) else go

-- One round of the loop over `rp.ShardGroups`.
unfoldable pub delete_from_group :
    ℕ → (ℕ → ℕ) → ShardGroupInfo → Outcome Error (Unit {0}) × ShardGroupInfo
unfolding scan_shards reassign
delete_from_group id now sg =
    let scan = scan_shards id sg.shards [] in
    if length sg.shards == 0 || length scan.orphans == length sg.shards
    then (ok tt, record sg { shards = scan.shards; deleted_at = now sg.id })
    else let (result, shards) = reassign scan.orphans scan.shards (delete id scan.freqs) in
      (result, record sg { shards = shards })

-- A loop whose rounds change their item, and that returns at the first error.
module _ {A : Type 0} (f : A → Outcome Error (Unit {0}) × A) where
  unfoldable pub for_each : List A → Outcome Error (Unit {0}) × List A
  for_each [] = (ok tt, [])
  for_each (x ∷ xs) =
      let (result, x') = f x in
      let (results, xs') = for_each xs in
      elim result [
        | ok _ ↦ (results, x' ∷ xs')
        | err e ↦ (err e, x' ∷ xs)
        | panic ↦ (panic, x' ∷ xs)
      ]

unfoldable pub delete_from_policy :
    ℕ → (ℕ → ℕ) → RetentionPolicyInfo → Outcome Error (Unit {0}) × RetentionPolicyInfo
delete_from_policy id now rp =
    let (result, groups) = for_each (delete_from_group id now) rp.shard_groups in
    (result, record rp { shard_groups = groups })

unfoldable pub delete_from_database :
    ℕ → (ℕ → ℕ) → DatabaseInfo → Outcome Error (Unit {0}) × DatabaseInfo
delete_from_database id now db =
    let (result, policies) = for_each (delete_from_policy id now) db.retention_policies in
    (result, record db { retention_policies = policies })

-- The freezing ends with the node.
unfoldable pub unfreeze_deleted : ℕ → List ℕ → List ℕ
unfreeze_deleted id freezed = elim (get_freezed freezed id) [
  | none ↦ freezed
  | some i ↦ remove_at i freezed
]

unfoldable pub delete_data_node : ℕ → (ℕ → ℕ) → Method (Unit {0})
delete_data_node id now d =
    if id == 0
    then (err node_id_required, d)
    else let nodes = without_node id d.data_nodes in
      if length nodes == length d.data_nodes
      then (err node_not_found, d)
      else let (result, dbs) = for_each (delete_from_database id now) d.databases in
        elim result [
          | ok _ ↦ (
            ok tt,
            record d {
              data_nodes = nodes;
              databases = dbs;
              freezed_data_nodes = unfreeze_deleted id d.freezed_data_nodes;
            },
          )
          | err e ↦ (err e, record d { data_nodes = nodes; databases = dbs })
          | panic ↦ (panic, record d { data_nodes = nodes; databases = dbs })
        ]
