-- ===== src/Base/Predicates.antt =====
-- Predicates on lists by recursion, which compute to tuples, and membership as a Boolean test.
use Prim.Native.Nat.{ℕ, zero, suc, ◌<◌}
use native.Mathlib.Omega.{arith}
use chronus.Base.Lists.{length, get_or}
use mathlib.Core.Path.{◌≡◌, refl, subst}
use mathlib.Core.Bool.{Bool, true, false, ◌||◌}
use mathlib.Core.List.{List, [], ◌∷◌, ◌++◌, Permᴰ}
use mathlib.Core.Logic.{◌⊎◌, inl, inr}
use chronus.Base.Tests.{◌==◌, Bool-cases}

abbrev pub All {ℓ κ} : {A : Type ℓ} → (A → Type κ) → List A → Type κ
All P [] = Unit
All P (x ∷ xs) = P x × All P xs

module _ {ℓ} {A : Type ℓ} where
  pub All-append {κ} : (P : A → Type κ) (xs ys : List A) → All P xs → All P ys → All P (xs ++ ys)
  All-append P [] ys h k = k
  All-append P (x ∷ xs) ys h k = (h.0, All-append P xs ys h.1 k)

  pub All-impl {κ μ} :
      {P : A → Type κ} {Q : A → Type μ} (xs : List A) → ((x : A) → P x → Q x) → All P xs → All Q xs
  All-impl [] f h = tt
  All-impl (x ∷ xs) f h = (f x h.0, All-impl xs f h.1)

-- The test by which the program looks for a number in a slice.
abbrev pub contains : ℕ → List ℕ → Bool
contains a [] = false
contains a (x ∷ xs) = x == a || contains a xs

-- No number stands twice.
abbrev pub Distinct : List ℕ → Type 0
Distinct [] = Unit
Distinct (x ∷ xs) = (contains x xs ≡ false) × Distinct xs

pub contains-get_or : (l : List ℕ) (i : ℕ) → i < length l → contains (get_or l i 0) l ≡ true
contains-get_or [] i h = absurd (omega arith)
contains-get_or (x ∷ l) zero h = ground arith
contains-get_or (x ∷ l) (suc i) h = ground (arith, contains-get_or l i (omega arith))

module _ {ℓ κ} {A : Type ℓ} (P : A → Type κ) where
  pub All-Perm : {xs ys : List A} → Permᴰ xs ys → All P xs → All P ys
  All-Perm Permᴰ.nil h = h
  All-Perm (Permᴰ.cons e p) h = (subst P e h.0, All-Perm p h.1)
  All-Perm (Permᴰ.swap e f) h = (subst P f h.1.0, (subst P e h.0, h.1.1))
  All-Perm (Permᴰ.trans p q) h = All-Perm q (All-Perm p h)

-- What holds of all numbers of a list holds of each.
pub All-contains : (P : ℕ → Type 0) (xs : List ℕ) (x : ℕ) → All P xs → contains x xs ≡ true → P x
All-contains P [] x all h = cc
All-contains P (y ∷ xs) x all h = elim (Bool-cases (y == x)) [
  | inl same ↦ let equal : y ≡ x = ground (arith, same) in subst P equal all.0
  | inr apart ↦ All-contains P xs x all.1 (ground (arith, h, apart))
]

pub All-of_contains :
    (P : ℕ → Type 0) (xs : List ℕ) → ((x : ℕ) → contains x xs ≡ true → P x) → All P xs
All-of_contains P [] h = tt
All-of_contains P (x ∷ xs) h =
    (h x (ground arith), All-of_contains P xs (λ y m. h y (ground (arith, m))))

pub contains-append :
    (x : ℕ) (xs ys : List ℕ) → contains x (xs ++ ys) ≡ (contains x xs || contains x ys)
contains-append x [] ys = refl
contains-append x (y ∷ xs) ys = ground (arith, contains-append x xs ys)

-- Some element of a list satisfies the predicate.
abbrev pub Any {ℓ} : {A : Type ℓ} → (A → Type 0) → List A → Type 0
Any P [] = ⊥
Any P (x ∷ xs) = P x ⊎ Any P xs

module _ {ℓ} {A : Type ℓ} (P : A → Type 0) where
  pub Any-append_left : (xs ys : List A) → Any P xs → Any P (xs ++ ys)
  Any-append_left [] ys h = elim h [ ]
  Any-append_left (x ∷ xs) ys (inl h) = inl h
  Any-append_left (x ∷ xs) ys (inr h) = inr (Any-append_left xs ys h)

  pub Any-append_right : (xs ys : List A) → Any P ys → Any P (xs ++ ys)
  Any-append_right [] ys h = h
  Any-append_right (x ∷ xs) ys h = inr (Any-append_right xs ys h)

  pub Any-Perm : {xs ys : List A} → Permᴰ xs ys → Any P xs → Any P ys
  Any-Perm Permᴰ.nil h = elim h [ ]
  Any-Perm (Permᴰ.cons e p) (inl h) = inl (subst P e h)
  Any-Perm (Permᴰ.cons e p) (inr h) = inr (Any-Perm p h)
  Any-Perm (Permᴰ.swap e f) (inl h) = inr (inl (subst P e h))
  Any-Perm (Permᴰ.swap e f) (inr (inl h)) = inl (subst P f h)
  Any-Perm (Permᴰ.swap e f) (inr (inr h)) = inr (inr h)
  Any-Perm (Permᴰ.trans p q) h = Any-Perm q (Any-Perm p h)

  -- An element for which the predicate holds, with what holds of all elements.
  pub Any-All : {Q : A → Type 0} (xs : List A) → Any P xs → All Q xs → (x : A) × P x × Q x
  Any-All [] h all = elim h [ ]
  Any-All (x ∷ xs) (inl h) all = (x, h, all.0)
  Any-All (x ∷ xs) (inr h) all = Any-All xs h all.1
