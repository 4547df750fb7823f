-- ===== src/Meta/Delete/Reassign.antt =====
-- The second loop of DeleteDataNode over a group: every orphaned shard gets an owner.
use chronus.Base.{
  ℕ, ◌<◌, ◌≡◌, ◌≢◌, refl, inl, inr, Bool, true, false, ◌||◌, List, [], ◌∷◌, ◌++◌, ok, arith, All,
  All-impl, Distinct, contains, length, length-append, ◌==◌, ==_iff, if◌then◌else◌, Bool-cases,
}
use chronus.Meta.Types.{ShardInfo}
use chronus.Meta.Owners.{Item, bump, new_shard_owner}
use chronus.Meta.Owners.Choice.{Offers, bump-Offers, new_shard_owner-candidate}
use chronus.Meta.Delete.{add_owner, has_shard, reassign}
use chronus.Meta.Delete.Orphans.{shard_ids, Unowned, OwnedOrListed}

abbrev pub IsOwned : ShardInfo → Type 0
IsOwned s = 0 < length s.owners

add_owner-ids :
    (id owner : ℕ) (ss : List ShardInfo) → shard_ids (add_owner id owner ss) ≡ shard_ids ss
unfolding add_owner
add_owner-ids id owner [] = refl
add_owner-ids id owner (s ∷ ss) = ground (arith, add_owner-ids id owner ss)

contains-append_one : (a x : ℕ) (l : List ℕ) → contains a (l ++ x ∷ []) ≡ (contains a l || x == a)
contains-append_one a x [] = ground arith
contains-append_one a x (y ∷ l) = ground (arith, contains-append_one a x l)

add_owner-Unowned :
    (gone id owner : ℕ) (ss : List ShardInfo)
    → owner ≢ gone
    → All (Unowned gone) ss
    → All (Unowned gone) (add_owner id owner ss)
unfolding add_owner
add_owner-Unowned gone id owner [] ne h = tt
add_owner-Unowned gone id owner (s ∷ ss) ne h = elim (Bool-cases (s.id == id)) [
  | inl this ↦ rw this (ground (arith, contains-append_one gone owner s.owners), h.1)
  | inr other ↦ rw other (h.0, add_owner-Unowned gone id owner ss ne h.1)
]

-- Where no shard has the id of the first orphan, the list without it serves as well.
unlisted :
    (o : ShardInfo) (os ss : List ShardInfo)
    → contains o.id (shard_ids ss) ≡ false
    → All (OwnedOrListed (o ∷ os)) ss
    → All (OwnedOrListed os) ss
unlisted o os [] absent h = tt
unlisted o os (s ∷ ss) absent h = (ground arith, unlisted o os ss (ground arith) h.1)

-- The orphan at the head of the list leaves it with an owner.
add_owner-OwnedOrListed :
    (o : ShardInfo) (owner : ℕ) (os ss : List ShardInfo)
    → Distinct (shard_ids ss)
    → All (OwnedOrListed (o ∷ os)) ss
    → All (OwnedOrListed os) (add_owner o.id owner ss)
unfolding add_owner
add_owner-OwnedOrListed o owner os [] d h = tt
add_owner-OwnedOrListed o owner os (s ∷ ss) d h = elim (Bool-cases (s.id == o.id)) [
  | inl this ↦
      let absent : contains o.id (shard_ids ss) ≡ false = rw ((==_iff s.id o.id).0 this) at d.0 in
      rw this
        (inl (omega (arith, length-append s.owners (owner ∷ []))), unlisted o os ss absent h.1)
  | inr other ↦ rw other (ground arith, add_owner-OwnedOrListed o owner os ss d.1 h.1)
]

share-Offers :
    (gone k : ℕ) (freqs : List Item) (b : Bool)
    → (k ≢ gone) × (k ≢ 0)
    → Offers gone freqs
    → Offers gone (if b then bump k freqs else freqs)
share-Offers gone k freqs true c h = bump-Offers gone k freqs c h
share-Offers gone k freqs false c h = h

-- With candidates on offer the loop succeeds: every shard of the group then has an owner, and
-- none is owned by the node `gone`.
pub reassign_settles :
    (gone : ℕ) (os ss : List ShardInfo) (freqs : List Item)
    → Distinct (shard_ids ss)
    → Offers gone freqs
    → All (Unowned gone) ss
    → All (OwnedOrListed os) ss
    → ((reassign os ss freqs).0 ≡ ok tt)
      × All (Unowned gone) (reassign os ss freqs).1
      × All IsOwned (reassign os ss freqs).1
unfolding reassign
reassign_settles gone [] ss freqs d offers h k = (refl, h, All-impl ss (λ s c. ground arith) k)
reassign_settles gone (o ∷ os) ss freqs d offers h k =
    let chosen = new_shard_owner-candidate gone freqs offers in
    let positive : (new_shard_owner freqs == 0) ≡ false = ground (arith, chosen.1) in
    rw positive (
      reassign_settles gone os (add_owner o.id (new_shard_owner freqs) ss) _ (rw add_owner-ids d)
        (share-Offers gone _ freqs (has_shard o.id ss) chosen offers)
        (add_owner-Unowned gone o.id (new_shard_owner freqs) ss chosen.0 h)
        (add_owner-OwnedOrListed o (new_shard_owner freqs) os ss d k))
