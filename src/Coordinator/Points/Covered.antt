-- ===== src/Coordinator/Points/Covered.antt =====
-- Every point that is young enough lies in a shard group of the list that MapShards makes.
use mathlib.Core.List.{Permᴰ}
use mathlib.Core.Path.{subst}
use chronus.Base.{
  ℕ, ◌≤◌, ◌<◌, ◌≡◌, refl, sym, ◌∙◌, ◌⊎◌, inl, inr, true, ◌||◌, List, [], ◌∷◌, ◌++◌, Option, none,
  some, Outcome, ok, err, panic, >>=-eq-ok, length, ltb, arith, All, All-append, All-Perm, Any,
  Any-append_left, Any-append_right, Any-Perm, Any-All, Bool-cases, Option-cases,
}
use chronus.Meta.Types.{ShardGroupInfo}
use chronus.Coordinator.Points.{
  Point, Client, is_group, covers, shard_group_at, append_group, add_group, add_groups,
}
use chronus.Coordinator.Points.Search.{EndsSorted, find_group, shard_group_at-find_group}

-- The time lies in the group's range.
abbrev pub Contains : ShardGroupInfo → ℕ → Type 0
Contains g t = (g.start_time ≤ t) × (t < g.end_time)

module _ {E : Type 0} (c : Client E) where
  abbrev pub Created : ShardGroupInfo → Type 0
  Created g = (k : ℕ) × (t : ℕ) × (c.create_shard_group k t ≡ ok (some g))

  -- A group that the client gives for a time contains it, and groups are sorted by their ends.
  pub record IsClient : Type 0 where
    pub contains_time :
        (k t : ℕ) (g : ShardGroupInfo) → c.create_shard_group k t ≡ ok (some g) → Contains g t
    pub sorts : (l : List ShardGroupInfo) → EndsSorted (c.sort l)
    pub keeps : (l : List ShardGroupInfo) → Permᴰ l (c.sort l)

  abbrev pub Covering : ℕ → ShardGroupInfo → Type 0
  Covering t g = Contains g t × Created g

  -- The groups of the list are sorted, and are the client's.
  abbrev pub IsGroups : List ShardGroupInfo → Type 0
  IsGroups l = EndsSorted l × All Created l

  -- Two of the client's groups overlap: one contains the time, the other starts after it and ends no
  -- later.
  abbrev pub Overlapped : ℕ → Type 0
  Overlapped t =
      (g h : ShardGroupInfo) × Covering t g
      × Created h
      × (t < h.start_time)
      × (h.end_time ≤ g.end_time)

  -- If a group of the list contains the time, then the first that ends after it does, or the two
  -- overlap.
  pub find_group-Covering :
      (l : List ShardGroupInfo) (t : ℕ)
      → IsGroups l
      → Any (Covering t) l
      → ((g : ShardGroupInfo) × (find_group l t ≡ some g) × Covering t g) ⊎ Overlapped t
  find_group-Covering [] t groups none_covers = absurd none_covers
  find_group-Covering (h ∷ hs) t groups (inl here) =
      let a = here.0.0 in let b = here.0.1 in inl (h, ground (arith, a, b), here)
  find_group-Covering (h ∷ hs) t groups (inr later) = elim (Bool-cases (ltb t h.end_time)) [
    | inr past ↦ elim (find_group-Covering hs t (groups.0.1, groups.1.1) later) [
      | inl (g, found, holds) ↦ inl (g, rw past found, holds)
      | inr overlapped ↦ inr overlapped
    ]
    | inl first ↦
        let (g, covering, after) = Any-All (Covering t) hs later groups.0.0 in
        elim (Bool-cases (ltb t h.start_time)) [
          | inl early ↦ inr (g, h, covering, groups.1.0, ground (arith, early), after)
          | inr begun ↦ inl (
            h,
            ground (arith, first, begun),
            ((ground (arith, begun), ground (arith, first)), groups.1.0),
          )
        ]
  ]

  -- A group that is found is one of the list, and contains the time.
  Any-find_group :
      (l : List ShardGroupInfo) (t : ℕ) (g : ShardGroupInfo)
      → All Created l
      → find_group l t ≡ some g
      → Any (Covering t) l
  Any-find_group [] t g created found = cc
  Any-find_group (h ∷ hs) t g created found = elim (Bool-cases (ltb t h.end_time)) [
    | inr past ↦ inr (Any-find_group hs t g created.1 (rw past at found))
    | inl first ↦ elim (Bool-cases (ltb t h.start_time)) [
      | inl early ↦ cc (rw (first, early) at found)
      | inr begun ↦ inl ((ground (arith, begun), ground (arith, first)), created.0)
    ]
  ]

  -- It is the client's, and contains the time.
  pub find_group_sound :
      (l : List ShardGroupInfo) (t : ℕ) (g : ShardGroupInfo)
      → All Created l
      → find_group l t ≡ some g
      → Covering t g
  find_group_sound [] t g created found = cc
  find_group_sound (h ∷ hs) t g created found = elim (Bool-cases (ltb t h.end_time)) [
    | inr past ↦ find_group_sound hs t g created.1 (rw past at found)
    | inl first ↦ elim (Bool-cases (ltb t h.start_time)) [
      | inl early ↦ cc (rw (first, early) at found)
      | inr begun ↦
          let same : h ≡ g = cc (rw (first, begun) at found) in
          subst (λ x. Covering t x) same ((ground (arith, begun), ground (arith, first)), created.0)
    ]
  ]

  Any-covers :
      (l : List ShardGroupInfo) (t : ℕ) → IsGroups l → covers l t ≡ true → Any (Covering t) l
  unfolding covers is_group
  Any-covers [] t groups h = cc
  Any-covers (g ∷ gs) t groups h =
      let found? : is_group (shard_group_at (g ∷ gs) t) ≡ true = ground (arith, h) in
      elim (Option-cases (shard_group_at (g ∷ gs) t)) [
        | inl nothing ↦ cc (nothing, found?)
        | inr (x, found) ↦
            Any-find_group (g ∷ gs) t x groups.1
              (sym (shard_group_at-find_group (g ∷ gs) t groups.0) ∙ found)
      ]

  module _ (valid : IsClient) where
    -- What the loop keeps: the groups are valid, and a time that is covered stays so.
    pub record Grows (l l' : List ShardGroupInfo) : Type 0 where
      pub groups : IsGroups l'
      pub stays : (t : ℕ) → Any (Covering t) l → Any (Covering t) l'

    append_group-Grows :
        (l l' : List ShardGroupInfo) (k t : ℕ) (o : Outcome E (Option ShardGroupInfo))
        → IsGroups l
        → c.create_shard_group k t ≡ o
        → append_group c l o ≡ ok l'
        → Grows l l' × Any (Covering t) l'
    unfolding append_group
    append_group-Grows l l' k t (ok none) groups gives success = cc
    append_group-Grows l l' k t (err e) groups gives success = cc
    append_group-Grows l l' k t panic groups gives success = cc
    append_group-Grows l l' k t (ok (some g)) groups gives success =
        let sorted : c.sort (l ++ g ∷ []) ≡ l' = cc (success) in
        let created : Created g = (k, t, gives) in
        let keeps = valid.keeps (l ++ g ∷ []) in
        subst (λ x. Grows l x × Any (Covering t) x) sorted
          (
            record {
              groups = (
                valid.sorts (l ++ g ∷ []),
                All-Perm Created keeps (All-append Created l (g ∷ []) groups.1 (created, tt)),
              );
              stays = λ u covered.
                  Any-Perm (Covering u) keeps (Any-append_left (Covering u) l (g ∷ []) covered);
            },
            Any-Perm (Covering t) keeps (
                Any-append_right (Covering t) l (g ∷ [])
                  (inl (valid.contains_time k t g gives, created))),
          )

    add_group-Grows :
        (min : ℕ) (p : Point) (l l' : List ShardGroupInfo)
        → IsGroups l
        → add_group c min p l ≡ ok l'
        → Grows l l' × (min ≤ p.time → Any (Covering p.time) l')
    unfolding add_group
    add_group-Grows min p l l' groups success =
        elim (Bool-cases (ltb p.time min || covers l p.time)) [
          | inr lacks ↦
              let (grows, covered) =
                append_group-Grows l l' (length l) p.time (c.create_shard_group (length l) p.time)
                  groups refl (rw lacks at success) in
              (grows, λ young. covered)
          | inl enough ↦
              let same : l ≡ l' = cc (rw enough at success) in
              subst (λ x. Grows l x × (min ≤ p.time → Any (Covering p.time) x)) same
                (
                  record { groups = groups; stays = λ u covered. covered },
                  λ young. Any-covers l p.time groups (ground (arith, enough, young)),
                )
        ]

    -- The list that the loop makes covers every point that is not older than `min`.
    pub add_groups-Covering :
        (min : ℕ) (ps : List Point) (l l' : List ShardGroupInfo)
        → IsGroups l
        → add_groups c min ps l ≡ ok l'
        → Grows l l' × All (λ (p : Point). min ≤ p.time → Any (Covering p.time) l') ps
    unfolding add_groups
    add_groups-Covering min [] l l' groups success =
        let same : l ≡ l' = cc (success) in
        (subst (λ x. Grows l x) same (record { groups = groups; stays = λ u covered. covered }), tt)
    add_groups-Covering min (p ∷ ps) l l' groups success =
        let (m, first, then_) =
          >>=-eq-ok (λ m. add_groups c min ps m) (add_group c min p l) success in
        let (grows, covered) = add_group-Grows min p l m groups first in
        let (grows', rest) = add_groups-Covering min ps m l' grows.groups then_ in
        (
          record { groups = grows'.groups; stays = λ t h. grows'.stays t (grows.stays t h) },
          ((λ young. grows'.stays p.time (covered young)), rest),
        )
