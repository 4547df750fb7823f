-- ===== src/Meta/ShardOwners.antt =====
-- services/meta/data.go: AddShardOwner and RemoveShardOwner. The nested loops
-- return at the first shard with the id.
mod Tracks
pub mod Exact
use chronus.Base.{
  ℕ, suc, ◌+◌, ◌≡◌, ◌≢◌, ◌⊎◌, refl, ap, ◌∙◌, Bool, true, false, ◌||◌, List, [], ◌∷◌, ◌++◌, Option,
  none, some, String, ok, err, panic, arith, contains, ◌==◌, if◌then◌else◌, Bool-cases,
  Option-cases, inl, inr,
}
use chronus.Meta.Types.{
  ShardInfo, ShardGroupInfo, RetentionPolicyInfo, DatabaseInfo, Data, Method, shard_group_not_found,
  retention_policy_not_found,
}
use chronus.Meta.Groups.{Influx, policy_at, set_policy}

-- A loop that changes the first item that it can, and returns there; `none` if it reaches the end.
change_first : {A : Type 0} → (A → Option A) → List A → Option (List A)
change_first f [] = none
change_first f (x ∷ xs) =
    let rest : Option (List _) = elim (change_first f xs) [
      | none ↦ none
      | some ys ↦ some (x ∷ ys)
    ] in
    elim (f x) [ some y ↦ some (y ∷ xs) | none ↦ rest ]

-- The innermost test, `s.ID == id`.
change_shard : ℕ → (List ℕ → List ℕ) → ShardInfo → Option ShardInfo
change_shard id f s = if s.id == id then some (record s { owners = f s.owners }) else none

change_group : ℕ → (List ℕ → List ℕ) → ShardGroupInfo → Option ShardGroupInfo
change_group id f g = elim (change_first (change_shard id f) g.shards) [
  | none ↦ none
  | some shards ↦ some (record g { shards = shards })
]

change_policy : ℕ → (List ℕ → List ℕ) → RetentionPolicyInfo → Option RetentionPolicyInfo
change_policy id f rp = elim (change_first (change_group id f) rp.shard_groups) [
  | none ↦ none
  | some groups ↦ some (record rp { shard_groups = groups })
]

change_database : ℕ → (List ℕ → List ℕ) → DatabaseInfo → Option DatabaseInfo
change_database id f db = elim (change_first (change_policy id f) db.retention_policies) [
  | none ↦ none
  | some policies ↦ some (record db { retention_policies = policies })
]

-- The first shard with the id has its owners changed.
pub change_owners : ℕ → (List ℕ → List ℕ) → Data → Data
unfolding change_first change_shard change_group change_policy change_database
change_owners id f d = elim (change_first (change_database id f) d.databases) [
  | none ↦ d
  | some dbs ↦ record d { databases = dbs }
]

-- An owner stands once.
abbrev with_owner : ℕ → List ℕ → List ℕ
with_owner node os = if contains node os then os else os ++ node ∷ []

-- The owners that RemoveShardOwner keeps.
without_owner : ℕ → List ℕ → List ℕ
without_owner node [] = []
without_owner node (o ∷ os) =
    let rest = without_owner node os in if o == node then rest else o ∷ rest

unfoldable pub add_shard_owner : ℕ → ℕ → Data → Data
unfolding change_owners
add_shard_owner id node d = change_owners id (with_owner node) d

unfoldable pub remove_shard_owner : ℕ → ℕ → Data → Data
unfolding change_owners without_owner
remove_shard_owner id node d = change_owners id (without_owner node) d

-- The owners of the first shard with the id, if there is one.
first_owners : {A : Type 0} → (A → Option (List ℕ)) → List A → Option (List ℕ)
first_owners f [] = none
first_owners f (x ∷ xs) =
    let rest = first_owners f xs in elim (f x) [ some os ↦ some os | none ↦ rest ]

owners_in_group : ℕ → ShardGroupInfo → Option (List ℕ)
owners_in_group id g =
    first_owners (λ (s : ShardInfo). if s.id == id then some s.owners else none) g.shards

owners_in_policy : ℕ → RetentionPolicyInfo → Option (List ℕ)
owners_in_policy id rp = first_owners (owners_in_group id) rp.shard_groups

owners_in_database : ℕ → DatabaseInfo → Option (List ℕ)
owners_in_database id db = first_owners (owners_in_policy id) db.retention_policies

-- The shard's owners, looked up in the metadata.
unfoldable pub owners_of : ℕ → Data → Option (List ℕ)
unfolding first_owners owners_in_group owners_in_policy owners_in_database
owners_of id d = first_owners (owners_in_database id) d.databases
