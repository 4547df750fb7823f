-- ===== src/Coordinator/Tests/Insertion.antt =====
-- A sort of shard groups by their ends, for the tests of points_writer.go.
use mathlib.Core.List.{Permᴰ}
use mathlib.Core.List.Permᴰ
use chronus.Base.{
  ◌≤◌, refl, List, [], ◌∷◌, leb, if◌then◌else◌, arith, All, All-impl, Bool-cases, inl, inr,
}
use chronus.Meta.Types.{ShardGroupInfo}
use chronus.Coordinator.Points.Search.{EndsSorted}

abbrev pub insert : ShardGroupInfo → List ShardGroupInfo → List ShardGroupInfo
insert g [] = g ∷ []
insert g (h ∷ hs) = if leb g.end_time h.end_time then g ∷ h ∷ hs else h ∷ insert g hs

abbrev pub sort : List ShardGroupInfo → List ShardGroupInfo
sort [] = []
sort (g ∷ gs) = insert g (sort gs)

insert-Permᴰ : (g : ShardGroupInfo) (l : List ShardGroupInfo) → Permᴰ (g ∷ l) (insert g l)
insert-Permᴰ g [] = Permᴰ.refl (g ∷ [])
insert-Permᴰ g (h ∷ hs) = elim (Bool-cases (leb g.end_time h.end_time)) [
  | inl before ↦ rw before (Permᴰ.refl (g ∷ h ∷ hs))
  | inr after ↦ rw after (Permᴰ.trans (Permᴰ.swap refl refl) (Permᴰ.cons refl (insert-Permᴰ g hs)))
]

pub sort-Permᴰ : (l : List ShardGroupInfo) → Permᴰ l (sort l)
sort-Permᴰ [] = Permᴰ.nil
sort-Permᴰ (g ∷ gs) = Permᴰ.trans (Permᴰ.cons refl (sort-Permᴰ gs)) (insert-Permᴰ g (sort gs))

All-insert :
    (P : ShardGroupInfo → Type 0) (g : ShardGroupInfo) (l : List ShardGroupInfo)
    → P g
    → All P l
    → All P (insert g l)
All-insert P g [] here all = (here, tt)
All-insert P g (h ∷ hs) here all = elim (Bool-cases (leb g.end_time h.end_time)) [
  | inl before ↦ rw before (here, all)
  | inr after ↦ rw after (all.0, All-insert P g hs here all.1)
]

insert-EndsSorted :
    (g : ShardGroupInfo) (l : List ShardGroupInfo) → EndsSorted l → EndsSorted (insert g l)
insert-EndsSorted g [] sorted = (tt, tt)
insert-EndsSorted g (h ∷ hs) sorted = elim (Bool-cases (leb g.end_time h.end_time)) [
  | inl before ↦
      let le : g.end_time ≤ h.end_time = ground (arith, before) in
      rw before ((le, All-impl hs (λ x later. omega (arith, later, le)) sorted.0), sorted)
  | inr after ↦ rw after (
    All-insert (λ x. h.end_time ≤ x.end_time) g hs (ground (arith, after)) sorted.0,
    insert-EndsSorted g hs sorted.1,
  )
]

pub sort-EndsSorted : (l : List ShardGroupInfo) → EndsSorted (sort l)
sort-EndsSorted [] = tt
sort-EndsSorted (g ∷ gs) = insert-EndsSorted g (sort gs) (sort-EndsSorted gs)
