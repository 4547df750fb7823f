-- ===== src/Meta/Delete/Orphans.antt =====
-- The first loop of DeleteDataNode over the shards of a group: what is taken away, who is orphaned,
-- and which nodes the table of frequencies names.
use chronus.Base.{
  ℕ, zero, suc, ◌≤◌, ◌<◌, ◌≡◌, ◌≢◌, refl, ap, ◌∙◌, ◌⊎◌, inl, inr, Bool, true, false, ◌||◌, List, [],
  ◌∷◌, Option, none, some, arith, All, All-impl, contains, length, drop, ◌==◌, if◌then◌else◌,
}
use chronus.Meta.Types.{ShardInfo}
use chronus.Meta.Nodes.Freeze.{remove_at}
use chronus.Meta.Owners.{Item, bump}
use chronus.Meta.Owners.Choice.{NonZero, bump-NonZero, has_key, has_key-bump}
use chronus.Meta.Delete.{scan_owners, relinquish, scan_shards}
use chronus.Meta.Delete.Relinquish.{OwnersValid, relinquish_gone, id-relinquish}

abbrev pub shard_ids : List ShardInfo → List ℕ
shard_ids [] = []
shard_ids (s ∷ ss) = s.id ∷ shard_ids ss

-- None of the shards is owned by the node.
abbrev pub Unowned : ℕ → ShardInfo → Type 0
Unowned id s = contains id s.owners ≡ false

-- The shard has an owner, or is on the list.
abbrev pub OwnedOrListed : List ShardInfo → ShardInfo → Type 0
OwnedOrListed orphans s = (0 < length s.owners) ⊎ (contains s.id (shard_ids orphans) ≡ true)

pub scan_owners-NonZero :
    (id i : ℕ) (os : List ℕ) (idx : Option ℕ) (freqs : List Item)
    → All (λ o. o ≢ 0) os
    → All NonZero freqs
    → All NonZero (scan_owners id i os idx freqs).1
unfolding scan_owners
scan_owners-NonZero id i [] idx freqs h k = k
scan_owners-NonZero id i (o ∷ os) idx freqs h k =
    scan_owners-NonZero id (suc i) os _ (bump o freqs) h.1 (bump-NonZero o freqs h.0 k)

-- The table names every owner that it named before, and every owner of the shard.
scan_owners-has_key :
    (id i : ℕ) (os : List ℕ) (idx : Option ℕ) (freqs : List Item) (j : ℕ)
    → has_key j (scan_owners id i os idx freqs).1 ≡ (contains j os || has_key j freqs)
unfolding scan_owners
scan_owners-has_key id i [] idx freqs j = refl
scan_owners-has_key id i (o ∷ os) idx freqs j =
    scan_owners-has_key id (suc i) os _ (bump o freqs) j ∙ ground (arith, has_key-bump o j freqs)

contains-drop : (a n : ℕ) (l : List ℕ) → contains a (drop n l) ≡ true → contains a l ≡ true
contains-drop a zero l h = h
contains-drop a (suc n) [] h = h
contains-drop a (suc n) (x ∷ l) h = ground (arith, contains-drop a n l h)

contains-remove_at :
    (a k : ℕ) (l : List ℕ) → contains a (remove_at k l) ≡ true → contains a l ≡ true
contains-remove_at a zero l h = contains-drop a 1 l h
contains-remove_at a (suc k) [] h = h
contains-remove_at a (suc k) (x ∷ l) h = ground (arith, contains-remove_at a k l)

contains-relinquish :
    (i : Option ℕ) (s : ShardInfo) (a : ℕ)
    → contains a (relinquish i s).owners ≡ true
    → contains a s.owners ≡ true
unfolding relinquish
contains-relinquish none s a h = h
contains-relinquish (some k) s a h = contains-remove_at a k s.owners h

first_owner : (os : List ℕ) → (os ≡ []) ⊎ ((j : ℕ) × (contains j os ≡ true))
first_owner [] = inl refl
first_owner (o ∷ os) = inr (o, ground arith)

owner_is_other : (id j : ℕ) (os : List ℕ) → contains id os ≡ false → contains j os ≡ true → j ≢ id
owner_is_other id j os gone found e = cc (ap (λ k. contains k os) e)

list_orphan :
    (b : Bool) (s : ShardInfo) (os ss : List ShardInfo)
    → (length s.owners == 0) ≡ b
    → All (OwnedOrListed os) ss
    → All (OwnedOrListed (if b then s ∷ os else os)) (s ∷ ss)
list_orphan true s os ss e h = (inr (ground arith), All-impl ss (λ t k. ground arith) h)
list_orphan false s os ss e h = (inl (ground arith), h)

module _ (id : ℕ) where
  pub scan_shards-ids :
      (ss : List ShardInfo) (freqs : List Item)
      → shard_ids (scan_shards id ss freqs).shards ≡ shard_ids ss
  unfolding scan_shards
  scan_shards-ids [] freqs = refl
  scan_shards-ids (s ∷ ss) freqs = cc (
    id-relinquish (scan_owners id 0 s.owners none freqs).0 s,
    scan_shards-ids ss (scan_owners id 0 s.owners none freqs).1,
  )

  pub scan_shards-NonZero :
      (ss : List ShardInfo) (freqs : List Item)
      → All OwnersValid ss
      → All NonZero freqs
      → All NonZero (scan_shards id ss freqs).freqs
  unfolding scan_shards
  scan_shards-NonZero [] freqs h k = k
  scan_shards-NonZero (s ∷ ss) freqs h k =
      scan_shards-NonZero ss (scan_owners id 0 s.owners none freqs).1 h.1
        (scan_owners-NonZero id 0 s.owners none freqs h.0.1 k)

  pub scan_shards-Unowned :
      (ss : List ShardInfo) (freqs : List Item)
      → All OwnersValid ss
      → All (Unowned id) (scan_shards id ss freqs).shards
  unfolding scan_shards
  scan_shards-Unowned [] freqs h = tt
  scan_shards-Unowned (s ∷ ss) freqs h = (
    relinquish_gone id s freqs h.0.0,
    scan_shards-Unowned ss (scan_owners id 0 s.owners none freqs).1 h.1,
  )

  pub scan_shards-OwnedOrListed :
      (ss : List ShardInfo) (freqs : List Item)
      → All (OwnedOrListed (scan_shards id ss freqs).orphans) (scan_shards id ss freqs).shards
  unfolding scan_shards
  scan_shards-OwnedOrListed [] freqs = tt
  scan_shards-OwnedOrListed (s ∷ ss) freqs =
      let seen = scan_owners id 0 s.owners none freqs in
      list_orphan _ (relinquish seen.0 s) _ _ refl (scan_shards-OwnedOrListed ss seen.1)

  scan_shards-has_key :
      (ss : List ShardInfo) (freqs : List Item) (j : ℕ)
      → has_key j freqs ≡ true
      → has_key j (scan_shards id ss freqs).freqs ≡ true
  unfolding scan_shards
  scan_shards-has_key [] freqs j h = h
  scan_shards-has_key (s ∷ ss) freqs j h =
      scan_shards-has_key ss (scan_owners id 0 s.owners none freqs).1 j
        (scan_owners-has_key id 0 s.owners none freqs j ∙ ground arith)

  pub length-orphans :
      (ss : List ShardInfo) (freqs : List Item)
      → length (scan_shards id ss freqs).orphans ≤ length ss
  unfolding scan_shards
  length-orphans [] freqs = omega arith
  length-orphans (s ∷ ss) freqs =
      ground (arith, length-orphans ss (scan_owners id 0 s.owners none freqs).1)

  -- A shard that keeps an owner puts another node than `id` into the table.
  pub owner_left :
      (ss : List ShardInfo) (freqs : List Item)
      → All OwnersValid ss
      → length (scan_shards id ss freqs).orphans < length ss
      → (j : ℕ) × (j ≢ id) × (has_key j (scan_shards id ss freqs).freqs ≡ true)
  unfolding scan_shards
  owner_left [] freqs h lt = absurd (omega arith)
  owner_left (s ∷ ss) freqs h lt =
      let seen = scan_owners id 0 s.owners none freqs in
      let s' = relinquish seen.0 s in
      elim (first_owner s'.owners) [
        | inl none_left ↦ owner_left ss seen.1 h.1 (ground (arith, ap length none_left))
        | inr (j, found) ↦ (
          j,
          owner_is_other id j s'.owners (relinquish_gone id s freqs h.0.0) found,
          scan_shards-has_key ss seen.1 j (
              scan_owners-has_key id 0 s.owners none freqs j
              ∙ ap (λ b. b || has_key j freqs) (contains-relinquish seen.0 s j found)),
        )
      ]
