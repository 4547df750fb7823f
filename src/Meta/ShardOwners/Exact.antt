-- ===== src/Meta/ShardOwners/Exact.antt =====
-- AddShardOwner and RemoveShardOwner, by the owners that are looked up afterwards.
use chronus.Base.{
  ℕ, ◌≡◌, ◌≢◌, refl, ap, ◌∙◌, false, ◌||◌, ◌&&◌, not, List, [], ◌∷◌, ◌++◌, Option, none, some,
  arith, Distinct, contains, ◌==◌, ==_iff, Bool-cases, inl, inr,
}
use chronus.Meta.Types.{Data}
use chronus.Meta.ShardOwners.{
  change_owners, with_owner, without_owner, add_shard_owner, remove_shard_owner, owners_of,
}
use chronus.Meta.ShardOwners.Tracks.{changed, owners_of-change}

changed_other :
    (id j : ℕ) (f : List ℕ → List ℕ) (o : Option (List ℕ)) → id ≢ j → changed id j f o ≡ o
changed_other id j f none ne = refl
changed_other id j f (some os) ne = ground arith

contains-snoc : (x a : ℕ) (l : List ℕ) → contains x (l ++ a ∷ []) ≡ (a == x || contains x l)
contains-snoc x a [] = refl
contains-snoc x a (y ∷ l) = ground (arith, contains-snoc x a l)

Distinct-snoc : (a : ℕ) (l : List ℕ) → contains a l ≡ false → Distinct l → Distinct (l ++ a ∷ [])
Distinct-snoc a [] h d = (refl, tt)
Distinct-snoc a (y ∷ l) h d =
    (ground (arith, contains-snoc y a l), Distinct-snoc a l (ground arith) d.1)

with_owner-Distinct : (node : ℕ) (os : List ℕ) → Distinct os → Distinct (with_owner node os)
with_owner-Distinct node os d = elim (Bool-cases (contains node os)) [
  | inl owner ↦ rw owner d
  | inr new ↦ rw new (Distinct-snoc node os new d)
]

contains-with_owner :
    (x node : ℕ) (os : List ℕ) → contains x (with_owner node os) ≡ (node == x || contains x os)
contains-with_owner x node os = ground (arith, contains-snoc x node os, ==_iff node x)

contains-without_owner :
    (x node : ℕ) (os : List ℕ)
    → contains x (without_owner node os) ≡ (not (node == x) && contains x os)
unfolding without_owner
contains-without_owner x node [] = ground arith
contains-without_owner x node (o ∷ os) = ground (arith, contains-without_owner x node os)

without_owner-absent :
    (node : ℕ) (os : List ℕ) → contains node os ≡ false → without_owner node os ≡ os
unfolding without_owner
without_owner-absent node [] h = refl
without_owner-absent node (o ∷ os) h = ground (arith, without_owner-absent node os)

without_owner-snoc :
    (node : ℕ) (os : List ℕ) → without_owner node (os ++ node ∷ []) ≡ without_owner node os
unfolding without_owner
without_owner-snoc node [] = ground arith
without_owner-snoc node (o ∷ os) = ground (arith, without_owner-snoc node os)

module _ (id : ℕ) (f : List ℕ → List ℕ) (d : Data) where
  owners_of-change_self :
      (os : List ℕ) → owners_of id d ≡ some os → owners_of id (change_owners id f d) ≡ some (f os)
  owners_of-change_self os there = rw (owners_of-change id id f d, there) (ground arith)

  owners_of-change_other : (j : ℕ) → id ≢ j → owners_of j (change_owners id f d) ≡ owners_of j d
  owners_of-change_other j ne =
      rw (owners_of-change id j f d) (changed_other id j f (owners_of j d) ne)

-- AddShardOwner makes the node an owner of the shard, adds no other and takes none away, lists no
-- owner twice if none was, and leaves the owners of the shards with other ids as they were.
pub add_shard_owner_exact :
    (id node : ℕ) (d : Data) (os : List ℕ)
    → owners_of id d ≡ some os
    → (os' : List ℕ) × (owners_of id (add_shard_owner id node d) ≡ some os')
      × ((x : ℕ) → contains x os' ≡ (node == x || contains x os))
      × (Distinct os → Distinct os')
      × ((j : ℕ) → id ≢ j → owners_of j (add_shard_owner id node d) ≡ owners_of j d)
unfolding add_shard_owner
add_shard_owner_exact id node d os there = (
  with_owner node os,
  owners_of-change_self id (with_owner node) d os there,
  λ x. contains-with_owner x node os,
  with_owner-Distinct node os,
  owners_of-change_other id (with_owner node) d,
)

-- RemoveShardOwner takes exactly the node from the owners of the shard, and leaves the owners of
-- the shards with other ids as they were.
pub remove_shard_owner_exact :
    (id node : ℕ) (d : Data) (os : List ℕ)
    → owners_of id d ≡ some os
    → (os' : List ℕ) × (owners_of id (remove_shard_owner id node d) ≡ some os')
      × ((x : ℕ) → contains x os' ≡ (not (node == x) && contains x os))
      × ((j : ℕ) → id ≢ j → owners_of j (remove_shard_owner id node d) ≡ owners_of j d)
unfolding remove_shard_owner
remove_shard_owner_exact id node d os there = (
  without_owner node os,
  owners_of-change_self id (without_owner node) d os there,
  λ x. contains-without_owner x node os,
  owners_of-change_other id (without_owner node) d,
)

-- Adding an owner that the shard does not have, and removing it again, gives back the owners of
-- every shard.
pub remove-add_shard_owner :
    (id node : ℕ) (d : Data) (os : List ℕ)
    → owners_of id d ≡ some os
    → contains node os ≡ false
    → (j : ℕ) → owners_of j (remove_shard_owner id node (add_shard_owner id node d)) ≡ owners_of j d
unfolding add_shard_owner remove_shard_owner
remove-add_shard_owner id node d os there new j =
    let added = change_owners id (with_owner node) d in
    elim (Bool-cases (id == j)) [
      | inl same ↦ rw (← (==_iff id j).0 same) (
          owners_of-change_self id (without_owner node) added (with_owner node os)
            (owners_of-change_self id (with_owner node) d os there)
          ∙ rw (new, there)
              (ap some (without_owner-snoc node os ∙ without_owner-absent node os new)))
      | inr other ↦
          let ne : id ≢ j = ground arith in
          owners_of-change_other id (without_owner node) added j ne
          ∙ owners_of-change_other id (with_owner node) d j ne
    ]
