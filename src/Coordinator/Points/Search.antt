-- ===== src/Coordinator/Points/Search.antt =====
-- sort.Search finds the first index at which the test holds, and ShardGroupAt the first group.
use chronus.Base.{
  ℕ, zero, suc, ◌+◌, ◌/◌, ◌≤◌, ◌<◌, ◌≡◌, refl, Bool, true, false, List, [], ◌∷◌, Option, none, some,
  length, get_elem?, ltb, if◌then◌else◌, arith, All, Bool-cases, inl, inr,
}
use chronus.Meta.Types.{ShardGroupInfo}
use chronus.Coordinator.Points.{search_from, search, ends_after, starts_by, shard_group_at}

-- The test fails below `r`, and holds from there to `n`.
pub record Splits (f : ℕ → Bool) (n r : ℕ) : Type 0 where
  pub inside : r ≤ n
  pub below : (k : ℕ) → k < r → f k ≡ false
  pub above : (k : ℕ) → r ≤ k → k < n → f k ≡ true

abbrev pub IsMonotone : (ℕ → Bool) → ℕ → Type 0
IsMonotone f n = (a b : ℕ) → a ≤ b → b < n → f a ≡ true → f b ≡ true

module _ (f : ℕ → Bool) (n : ℕ) (mono : IsMonotone f n) where
  falls : (a b : ℕ) → a ≤ b → b < n → f b ≡ false → f a ≡ false
  falls a b h inside fails = elim (Bool-cases (f a)) [
    | inl holds ↦ cc (mono a b h inside holds, fails)
    | inr fails_too ↦ fails_too
  ]

  search_from-Splits :
      (fuel i j : ℕ)
      → i ≤ j
      → j ≤ n
      → j ≤ fuel + i
      → ((k : ℕ) → k < i → f k ≡ false)
      → ((k : ℕ) → j ≤ k → k < n → f k ≡ true)
      → Splits f n (search_from fuel f i j)
  unfolding search_from
  search_from-Splits zero i j le inside fits below above = record {
    inside = omega arith;
    below = below;
    above = λ k h lt. above k (omega arith) lt;
  }
  search_from-Splits (suc fuel) i j le inside fits below above = elim (Bool-cases (ltb i j)) [
    | inr done ↦
        let equal : j ≤ i = ground (arith, done) in
        rw done (record {
          inside = omega arith;
          below = below;
          above = λ k h lt. above k (omega arith) lt;
        })
    | inl more ↦
        let lt : i < j = ground (arith, more) in
        let h = (i + j) / 2 in
        elim (Bool-cases (f h)) [
          | inl holds ↦
              rw (more, holds)
                (search_from-Splits fuel i h (omega arith) (omega arith) (omega arith) below
                  (λ k le' lt'. mono h k le' lt' holds))
          | inr fails ↦
              rw (more, fails)
                (search_from-Splits fuel (h + 1) j (omega arith) inside (omega arith)
                  (λ k lt'. falls k h (omega arith) (omega arith) fails) above)
        ]
  ]

  pub search-Splits : Splits f n (search n f)
  unfolding search
  search-Splits =
      search_from-Splits n 0 n (omega arith) (omega arith) (omega arith)
        (λ k h. absurd (omega arith)) (λ k h lt. absurd (omega arith))

-- The groups stand in the order of their ends.
abbrev pub EndsSorted : List ShardGroupInfo → Type 0
EndsSorted [] = Unit
EndsSorted (g ∷ gs) = All (λ (h : ShardGroupInfo). g.end_time ≤ h.end_time) gs × EndsSorted gs

-- The first group that ends after the time, if it has begun.
abbrev pub find_group : List ShardGroupInfo → ℕ → Option ShardGroupInfo
find_group [] t = none
find_group (g ∷ gs) t =
    if ltb t g.end_time then (if ltb t g.start_time then none else some g) else find_group gs t

ends_later :
    (gs : List ShardGroupInfo) (e t k : ℕ)
    → All (λ (h : ShardGroupInfo). e ≤ h.end_time) gs
    → k < length gs
    → t < e
    → ends_after t (get_elem? gs k) ≡ true
unfolding ends_after
ends_later [] e t k later inside h = absurd (omega arith)
ends_later (g ∷ gs) e t zero later inside h = ground (arith, later.0)
ends_later (g ∷ gs) e t (suc k) later inside h = ends_later gs e t k later.1 (omega arith) h

ends_after-IsMonotone :
    (l : List ShardGroupInfo) (t : ℕ)
    → EndsSorted l
    → IsMonotone (λ i. ends_after t (get_elem? l i)) (length l)
unfolding ends_after
ends_after-IsMonotone [] t sorted a b le inside h = absurd (omega arith)
ends_after-IsMonotone (g ∷ gs) t sorted zero zero le inside h = h
ends_after-IsMonotone (g ∷ gs) t sorted zero (suc b) le inside h =
    ends_later gs g.end_time t b sorted.0 (omega arith) (ground (arith, h))
ends_after-IsMonotone (g ∷ gs) t sorted (suc a) zero le inside h = absurd (omega arith)
ends_after-IsMonotone (g ∷ gs) t sorted (suc a) (suc b) le inside h =
    ends_after-IsMonotone gs t sorted.1 a b (omega arith) (omega arith) h

find_group-Splits :
    (l : List ShardGroupInfo) (t r : ℕ)
    → Splits (λ i. ends_after t (get_elem? l i)) (length l) r
    → starts_by t (get_elem? l r) ≡ find_group l t
unfolding starts_by ends_after
find_group-Splits [] t r s = refl
find_group-Splits (g ∷ gs) t zero s =
    let first = s.above 0 (omega arith) (omega arith) in rw first refl
find_group-Splits (g ∷ gs) t (suc r) s =
    let first = s.below 0 (omega arith) in
    let rest = find_group-Splits gs t r (record {
      inside = omega (arith, s.inside);
      below = λ k h. s.below (suc k) (omega arith);
      above = λ k h lt. s.above (suc k) (omega arith) (omega arith);
    }) in
    rw first rest

-- In a list that is sorted by the ends, ShardGroupAt finds the first group that ends after the time,
-- and none if that group begins after the time.
pub shard_group_at-find_group :
    (l : List ShardGroupInfo) (t : ℕ) → EndsSorted l → shard_group_at l t ≡ find_group l t
unfolding shard_group_at
shard_group_at-find_group l t sorted = find_group-Splits l t _ (
    search-Splits (λ i. ends_after t (get_elem? l i)) (length l) (ends_after-IsMonotone l t sorted))
