-- ===== src/Meta/Owners/Choice.antt =====
-- Which node newShardOwner chooses.
use mathlib.Core.List.{Permᴰ}
use chronus.Base.{
  ℕ, ◌≡◌, ◌≢◌, refl, sym, ap, ◌∙◌, ◌⊎◌, inl, inr, Bool, true, false, List, [], ◌∷◌, Option, none,
  some, arith, All, ◌||◌, ◌==◌, All-impl, Bool-cases, if◌then◌else◌,
}
use chronus.Meta.Owners.{
  Item, less, insert_item, sort_items, first_id, new_shard_owner, bump, delete,
}

-- The lesser of an item and, if there is one, another.
better : Item → Option Item → Item
better x none = x
better x (some y) = if less y x then y else x

head_item : List Item → Option Item
head_item [] = none
head_item (x ∷ xs) = some x

-- The item that the sort brings to the front, found without sorting.
least : List Item → Option Item
least [] = none
least (x ∷ xs) = some (better x (least xs))

head_item-insert :
    (x : Item) (l : List Item) → head_item (insert_item x l) ≡ some (better x (head_item l))
unfolding head_item insert_item better
head_item-insert x [] = refl
head_item-insert x (y ∷ ys) = ground arith

head_item-sort : (l : List Item) → head_item (sort_items l) ≡ least l
unfolding sort_items least
head_item-sort [] = unfold head_item in refl
head_item-sort (x ∷ xs) =
    head_item-insert x (sort_items xs) ∙ ap (λ o. some (better x o)) (head_item-sort xs)

id_of : Option Item → ℕ
id_of none = 0
id_of (some x) = x.id

first_id-head : (l : List Item) → first_id l ≡ id_of (head_item l)
unfolding first_id head_item id_of
first_id-head [] = refl
first_id-head (x ∷ xs) = refl

new_shard_owner-least : (l : List Item) → new_shard_owner l ≡ id_of (least l)
unfolding new_shard_owner
new_shard_owner-least l = first_id-head (sort_items l) ∙ ap id_of (head_item-sort l)

better_comm :
    (x y : Item) (o : Option Item) → better x (some (better y o)) ≡ better y (some (better x o))
unfolding better
better_comm x y o = ground arith

least-perm : {l m : List Item} → Permᴰ l m → least l ≡ least m
unfolding least
least-perm Permᴰ.nil = refl
least-perm (Permᴰ.cons e p) = cc (e, least-perm p)
least-perm (Permᴰ.swap {a = a} {b = b} {l = l} e f) =
    rw (← e, ← f) (ap some (better_comm a b (least l)))
least-perm (Permᴰ.trans p q) = least-perm p ∙ least-perm q

-- The choice does not depend on the order in which the map is walked.
pub new_shard_owner_stable : {l m : List Item} → Permᴰ l m → new_shard_owner l ≡ new_shard_owner m
new_shard_owner_stable {l} {m} p =
    new_shard_owner-least l ∙ ap id_of (least-perm p) ∙ sym (new_shard_owner-least m)

-- `a` comes no later than `b` in the order of the sort.
abbrev pub NotAfter : Item → Item → Type 0
NotAfter a b = less b a ≡ false

-- An item stands in the list.
abbrev pub Among : Item → List Item → Type 0
Among x [] = ⊥
Among x (y ∷ ys) = (x ≡ y) ⊎ Among x ys

NotAfter-trans : (x y w : Item) → less y x ≡ false → NotAfter y w → NotAfter x w
NotAfter-trans x y w h k = ground arith

-- The item at which the sorted table begins.
abbrev Leads : Item → List Item → Type 0
Leads y l = (least l ≡ some y) × Among y l × All (NotAfter y) l

Leads-cons :
    (x z y : Item) (l : List Item)
    → Leads y (z ∷ l)
    → (less y x ≡ true → Leads y (x ∷ z ∷ l)) × (less y x ≡ false → Leads x (x ∷ z ∷ l))
Leads-cons x z y l (e, among, first) = (
  λ before. (
    unfold least in ap (λ o. some (better x o)) e ∙ (unfold better in rw before),
    inr among,
    (ground arith, first),
  ),
  λ after. (
    unfold least in ap (λ o. some (better x o)) e ∙ (unfold better in rw after),
    inl refl,
    (ground arith, All-impl (z ∷ l) (λ w h. NotAfter-trans x y w after h) first),
  ),
)

least_chosen : (x : Item) (l : List Item) → (y : Item) × Leads y (x ∷ l)
least_chosen x [] = (x, (unfold least better in refl, inl refl, (ground arith, tt)))
least_chosen x (z ∷ l) =
    let (y, lead) = least_chosen z l in
    let steps = Leads-cons x z y l lead in
    elim (Bool-cases (less y x)) [
      | inl before ↦ (y, steps.0 before)
      | inr after ↦ (x, steps.1 after)
    ]

pub new_shard_owner_least :
    (x : Item) (l : List Item)
    → (y : Item) × (new_shard_owner (x ∷ l) ≡ y.id) × Among y (x ∷ l) × All (NotAfter y) (x ∷ l)
new_shard_owner_least x l =
    let (y, lead) = least_chosen x l in
    (y, new_shard_owner-least (x ∷ l) ∙ ap id_of lead.0 ∙ unfold id_of in refl, lead.1, lead.2)

-- What every key of the table has, the chosen node has.
All-among {κ} : (P : Item → Type κ) (y : Item) (l : List Item) → Among y l → All P l → P y
All-among P y [] m h = absurd m
All-among P y (x ∷ l) (inl e) h = rw e h.0
All-among P y (x ∷ l) (inr m) h = All-among P y l m h.1

-- A node that a table can give to a shard when the node `id` is removed.
abbrev pub IsCandidate : ℕ → Item → Type 0
IsCandidate id x = (x.id ≢ id) × (x.id ≢ 0)

-- A table that offers candidates, and only these.
abbrev pub Offers : ℕ → List Item → Type 0
Offers id l = (l ≢ []) × All (IsCandidate id) l

pub new_shard_owner-candidate :
    (id : ℕ) (l : List Item) → Offers id l → (new_shard_owner l ≢ id) × (new_shard_owner l ≢ 0)
new_shard_owner-candidate id [] h = absurd (h.0 refl)
new_shard_owner-candidate id (x ∷ l) h =
    let (y, e, among, _) = new_shard_owner_least x l in
    rw e (All-among (IsCandidate id) y (x ∷ l) among h.1)

bump-All :
    (id k : ℕ) (l : List Item)
    → (k ≢ id) × (k ≢ 0)
    → All (IsCandidate id) l
    → All (IsCandidate id) (bump k l)
unfolding bump
bump-All id k [] c h = (c, tt)
bump-All id k (x ∷ l) c h = elim (Bool-cases (x.id == k)) [
  | inl found ↦ rw found (h.0, h.1)
  | inr other ↦ rw other (h.0, bump-All id k l c h.1)
]

bump-ne-nil : (k : ℕ) (l : List Item) → bump k l ≢ []
unfolding bump
bump-ne-nil k [] = ground arith
bump-ne-nil k (x ∷ l) = ground arith

-- Another share for a candidate leaves the offers.
pub bump-Offers :
    (id k : ℕ) (l : List Item) → (k ≢ id) × (k ≢ 0) → Offers id l → Offers id (bump k l)
bump-Offers id k l c h = (bump-ne-nil k l, bump-All id k l c h.1)

-- The keys are not 0.
abbrev pub NonZero : Item → Type 0
NonZero x = x.id ≢ 0

pub bump-NonZero : (k : ℕ) (l : List Item) → k ≢ 0 → All NonZero l → All NonZero (bump k l)
unfolding bump
bump-NonZero k [] c h = (c, tt)
bump-NonZero k (x ∷ l) c h = elim (Bool-cases (x.id == k)) [
  | inl found ↦ rw found (h.0, h.1)
  | inr other ↦ rw other (h.0, bump-NonZero k l c h.1)
]

pub delete-candidates :
    (id : ℕ) (l : List Item) → All NonZero l → All (IsCandidate id) (delete id l)
unfolding delete
delete-candidates id [] h = tt
delete-candidates id (x ∷ l) h = elim (Bool-cases (x.id == id)) [
  | inl gone ↦ rw gone (delete-candidates id l h.1)
  | inr kept ↦ rw kept ((ground arith, h.0), delete-candidates id l h.1)
]

-- Does the table have an entry for the node?
abbrev pub has_key : ℕ → List Item → Bool
has_key k [] = false
has_key k (x ∷ l) = x.id == k || has_key k l

pub has_key-bump : (k j : ℕ) (l : List Item) → has_key j (bump k l) ≡ (k == j || has_key j l)
unfolding bump
has_key-bump k j [] = ground arith
has_key-bump k j (x ∷ l) = ground (arith, has_key-bump k j l)

pub delete-ne-nil : (id j : ℕ) (l : List Item) → j ≢ id → has_key j l ≡ true → delete id l ≢ []
unfolding delete
delete-ne-nil id j [] ne h = cc
delete-ne-nil id j (x ∷ l) ne h = ground (arith, delete-ne-nil id j l)
