-- ===== src/Meta/Delete/Settled.antt =====
-- What DeleteDataNode leaves, from the shard group up to the whole of the metadata.
use chronus.Base.{
  ℕ, ◌≤◌, ◌<◌, ◌≡◌, ◌≢◌, refl, ◌⊎◌, inl, inr, ◌||◌, false, List, [], ◌∷◌, ok, arith, All, Distinct,
  contains, length, ◌==◌, Bool-cases, Outcome, none, some,
}
use chronus.Meta.Types.{NodeInfo, ShardGroupInfo, DatabaseInfo, Data, Error}
use chronus.Meta.Owners.{delete}
use chronus.Meta.Owners.Choice.{Offers, delete-candidates, delete-ne-nil}
use chronus.Meta.Nodes.{exist_in_nodes, without_node}
use chronus.Meta.Delete.{
  scan_shards, delete_from_group, delete_from_policy, delete_from_database, for_each,
  delete_data_node, unfreeze_deleted,
}
use chronus.Meta.Nodes.Freeze.{get_freezed}
use chronus.Meta.Delete.Relinquish.{OwnersValid}
use chronus.Meta.Delete.Orphans.{
  shard_ids, Unowned, scan_shards-ids, scan_shards-NonZero, scan_shards-Unowned,
  scan_shards-OwnedOrListed, length-orphans, owner_left,
}
use chronus.Meta.Delete.Reassign.{IsOwned, reassign_settles}

-- A group before: its shards have ids of their own, and each has valid owners.
abbrev pub GroupValid : ShardGroupInfo → Type 0
GroupValid g = Distinct (shard_ids g.shards) × All OwnersValid g.shards

-- A group after: the node owns none of its shards, and the group is marked deleted or each of its
-- shards has an owner.
abbrev pub GroupSettled : ℕ → ShardGroupInfo → Type 0
GroupSettled id g = All (Unowned id) g.shards × ((0 < g.deleted_at) ⊎ All IsOwned g.shards)

module _ (id : ℕ) (now : ℕ → ℕ) (started : (n : ℕ) → 0 < now n) where
  delete_from_group_settles :
      (g : ShardGroupInfo)
      → GroupValid g
      → ((delete_from_group id now g).0 ≡ ok tt) × GroupSettled id (delete_from_group id now g).1
  unfolding delete_from_group
  delete_from_group_settles g (distinct, valid) =
      let scan = scan_shards id g.shards [] in
      let gone = scan_shards-Unowned id g.shards [] valid in
      elim (Bool-cases (length g.shards == 0 || length scan.orphans == length g.shards)) [
        | inl dead ↦ rw dead (refl, (gone, inl (started g.id)))
        | inr live ↦
            let (j, other, named) =
              owner_left id g.shards [] valid (ground (arith, length-orphans id g.shards [])) in
            let offers : Offers id (delete id scan.freqs) = (
              delete-ne-nil id j scan.freqs other named,
              delete-candidates id scan.freqs (scan_shards-NonZero id g.shards [] valid tt),
            ) in
            let (done, unowned, owned) =
              reassign_settles id scan.orphans scan.shards (delete id scan.freqs)
                (rw scan_shards-ids distinct) offers gone
                (scan_shards-OwnedOrListed id g.shards []) in
            rw live (done, (unowned, inr owned))
      ]

-- Rounds that all succeed make a loop that succeeds, and each item is then as its round left it.
for_each_settles {ℓ κ} :
    {A : Type 0} (f : A → Outcome Error (Unit {0}) × A) (P : A → Type ℓ) (Q : A → Type κ)
    → ((x : A) → P x → ((f x).0 ≡ ok tt) × Q (f x).1)
    → (xs : List A) → All P xs
    → ((for_each f xs).0 ≡ ok tt) × All Q (for_each f xs).1
unfolding for_each
for_each_settles f P Q step [] h = (refl, tt)
for_each_settles f P Q step (x ∷ xs) h =
    let (done, settled) = step x h.0 in
    let (rest_done, rest_settled) = for_each_settles f P Q step xs h.1 in
    rw (done, for_each) (rest_done, (settled, rest_settled))

-- The statement for all groups of the metadata.
abbrev pub AllGroups : (ShardGroupInfo → Type 0) → List DatabaseInfo → Type 0
AllGroups P = All (λ db. All (λ rp. All P rp.shard_groups) db.retention_policies)

length-without_node : (id : ℕ) (ns : List NodeInfo) → length (without_node id ns) ≤ length ns
unfolding without_node
length-without_node id [] = omega arith
length-without_node id (n ∷ ns) = ground (arith, length-without_node id ns)

without_node-shorter :
    (id : ℕ) (ns : List NodeInfo) (n : NodeInfo)
    → exist_in_nodes ns id ≡ some n
    → length (without_node id ns) < length ns
unfolding without_node exist_in_nodes
without_node-shorter id [] n h = cc
without_node-shorter id (m ∷ ns) n h =
    ground (arith, length-without_node id ns, without_node-shorter id ns n)

exist_in_nodes-without_node :
    (id : ℕ) (ns : List NodeInfo) → exist_in_nodes (without_node id ns) id ≡ none
unfolding without_node exist_in_nodes
exist_in_nodes-without_node id [] = refl
exist_in_nodes-without_node id (n ∷ ns) = ground (arith, exist_in_nodes-without_node id ns)

unfreeze_deleted-gone :
    (id : ℕ) (l : List ℕ) → Distinct l → contains id (unfreeze_deleted id l) ≡ false
unfolding unfreeze_deleted get_freezed
unfreeze_deleted-gone id [] h = refl
unfreeze_deleted-gone id (x ∷ l) h = ground (arith, unfreeze_deleted-gone id l h.1)

module _ (id : ℕ) (now : ℕ → ℕ) (started : (n : ℕ) → 0 < now n) where
  databases_settle :
      (dbs : List DatabaseInfo)
      → AllGroups GroupValid dbs
      → ((for_each (delete_from_database id now) dbs).0 ≡ ok tt)
        × AllGroups (GroupSettled id) (for_each (delete_from_database id now) dbs).1
  unfolding delete_from_database delete_from_policy
  databases_settle =
      for_each_settles (delete_from_database id now)
        (λ db. All (λ rp. All GroupValid rp.shard_groups) db.retention_policies)
        (λ db. All (λ rp. All (GroupSettled id) rp.shard_groups) db.retention_policies)
        λ db.
          for_each_settles (delete_from_policy id now) (λ rp. All GroupValid rp.shard_groups)
            (λ rp. All (GroupSettled id) rp.shard_groups)
            (λ rp.
              for_each_settles (delete_from_group id now) GroupValid (GroupSettled id)
                (delete_from_group_settles id now started) rp.shard_groups)
            db.retention_policies

  -- Deleting a data node that is there succeeds, if each group's shards have distinct ids and each
  -- shard's owners are distinct and not 0, and if the clock is not at the zero time. The node is
  -- then gone, it owns no shard, and it is not frozen if it was frozen once at most. Every shard
  -- group is marked deleted, or each of its shards has an owner.
  pub delete_data_node_settles :
      (d : Data) (n : NodeInfo)
      → id ≢ 0
      → exist_in_nodes d.data_nodes id ≡ some n
      → AllGroups GroupValid d.databases
      → Distinct d.freezed_data_nodes
      → ((delete_data_node id now d).0 ≡ ok tt)
        × (exist_in_nodes (delete_data_node id now d).1.data_nodes id ≡ none)
        × AllGroups (GroupSettled id) (delete_data_node id now d).1.databases
        × (contains id (delete_data_node id now d).1.freezed_data_nodes ≡ false)
  unfolding delete_data_node
  delete_data_node_settles d n nonzero there valid frozen =
      let real : (id == 0) ≡ false = ground arith in
      let fewer : (length (without_node id d.data_nodes) == length d.data_nodes) ≡ false =
        ground (arith, without_node-shorter id d.data_nodes n) in
      let (done, settled) = databases_settle d.databases valid in
      rw (real, fewer, done)
        (
          refl,
          exist_in_nodes-without_node id d.data_nodes,
          settled,
          unfreeze_deleted-gone id d.freezed_data_nodes frozen,
        )
