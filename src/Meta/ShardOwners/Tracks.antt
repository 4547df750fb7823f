-- ===== src/Meta/ShardOwners/Tracks.antt =====
-- A change of the first shard with an id, followed through the nested loops.
use chronus.Base.{
  ℕ, ◌≡◌, ◌≢◌, ◌⊎◌, refl, List, [], ◌∷◌, Option, none, some, arith, ◌==◌, if◌then◌else◌, Bool-cases,
  inl, inr,
}
use chronus.Meta.Types.{ShardInfo, ShardGroupInfo, RetentionPolicyInfo, DatabaseInfo, Data}
use chronus.Meta.ShardOwners.{
  change_first, change_shard, change_group, change_policy, change_database, change_owners,
  first_owners, owners_in_group, owners_in_policy, owners_in_database, owners_of,
}

-- How a change of the owners of the shard `id` shows in what is looked up for the shard `j`.
module _ (id j : ℕ) (f : List ℕ → List ℕ) where
  abbrev pub changed : Option (List ℕ) → Option (List ℕ)
  changed none = none
  changed (some os) = some (if id == j then f os else os)

  -- `change` changes what `look` finds, or there is nothing to change.
  abbrev Tracks : {A : Type 0} → (A → Option A) → (A → Option (List ℕ)) → A → Type 0
  Tracks {A} change look x =
      ((change x ≡ none) × (id ≡ j → look x ≡ none))
      ⊎ ((y : A) × (change x ≡ some y) × (look y ≡ changed (look x)) × (id ≡ j → look x ≢ none))

  Tracks-list :
      {A : Type 0} (change : A → Option A) (look : A → Option (List ℕ))
      → ((x : A) → Tracks change look x)
      → (xs : List A) → Tracks (change_first change) (first_owners look) xs
  unfolding change_first first_owners
  Tracks-list change look step [] = inl (refl, λ e. refl)
  Tracks-list change look step (x ∷ xs) = elim (step x) [
    | inr (y, e, same, there) ↦ inr (y ∷ xs, ground arith, ground arith, ground arith)
    | inl (e, nothing) ↦ elim (Tracks-list change look step xs) [
      | inl (e', nothing') ↦ inl (ground arith, ground arith)
      | inr (ys, e', same, there) ↦ inr (x ∷ ys, ground arith, ground arith, ground arith)
    ]
  ]

  unchanged : (o : Option (List ℕ)) → (id ≡ j → o ≡ none) → o ≡ changed o
  unchanged none h = refl
  unchanged (some os) h = ground arith

  Tracks-shard :
      (s : ShardInfo)
      → Tracks (change_shard id f) (λ t. if t.id == j then some t.owners else none) s
  unfolding change_shard
  Tracks-shard s = elim (Bool-cases (s.id == id)) [
    | inl this ↦ inr (record s { owners = f s.owners }, rw this, ground arith, ground arith)
    | inr other ↦ inl (rw other, ground arith)
  ]

  Tracks-group : (g : ShardGroupInfo) → Tracks (change_group id f) (owners_in_group j) g
  unfolding change_group owners_in_group
  Tracks-group g = elim (Tracks-list _ _ Tracks-shard g.shards) [
    | inl (e, nothing) ↦ inl (rw (e, change_group), nothing)
    | inr (ss, e, same, there) ↦ inr (record g { shards = ss }, rw (e, change_group), same, there)
  ]

  Tracks-policy : (rp : RetentionPolicyInfo) → Tracks (change_policy id f) (owners_in_policy j) rp
  unfolding change_policy owners_in_policy
  Tracks-policy rp = elim (Tracks-list _ _ Tracks-group rp.shard_groups) [
    | inl (e, nothing) ↦ inl (rw (e, change_policy), nothing)
    | inr (gs, e, same, there) ↦
        inr (record rp { shard_groups = gs }, rw (e, change_policy), same, there)
  ]

  Tracks-database : (db : DatabaseInfo) → Tracks (change_database id f) (owners_in_database j) db
  unfolding change_database owners_in_database
  Tracks-database db = elim (Tracks-list _ _ Tracks-policy db.retention_policies) [
    | inl (e, nothing) ↦ inl (rw (e, change_database), nothing)
    | inr (rps, e, same, there) ↦
        inr (record db { retention_policies = rps }, rw (e, change_database), same, there)
  ]

  pub owners_of-change : (d : Data) → owners_of j (change_owners id f d) ≡ changed (owners_of j d)
  unfolding owners_of change_owners
  owners_of-change d = elim (Tracks-list _ _ Tracks-database d.databases) [
    | inl (e, nothing) ↦
        rw (e, change_owners) (unchanged (first_owners (owners_in_database j) d.databases) nothing)
    | inr (dbs, e, same, there) ↦ rw (e, change_owners) same
  ]
