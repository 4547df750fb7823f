-- ===== src/Meta/Owners.antt =====
-- services/meta/data.go: newShardOwner and the table of owner frequencies, a Go map. The order in
-- which Go walks the map is the order of the list; `sort.Slice` is an insertion sort.
pub mod Choice
use chronus.Base.{ℕ, ◌+◌, Bool, List, [], ◌∷◌, Option, none, some, ◌==◌, ltb, if◌then◌else◌}

-- An entry of `nodeOwnerFreqs`.
pub record Item : Type 0 where
  pub id : ℕ
  pub freq : ℕ

-- freqs[id]++
unfoldable pub bump : ℕ → List Item → List Item
bump id [] = record { id = id; freq = 1 } ∷ []
bump id (x ∷ xs) = if x.id == id then record x { freq = x.freq + 1 } ∷ xs else x ∷ bump id xs

-- delete(freqs, id)
unfoldable pub delete : ℕ → List Item → List Item
delete id [] = []
delete id (x ∷ xs) = let rest = delete id xs in if x.id == id then rest else x ∷ rest

-- The order of the sort: by frequency, then by id.
abbrev pub less : Item → Item → Bool
less a b = if a.freq == b.freq then ltb a.id b.id else ltb a.freq b.freq

insert_item : Item → List Item → List Item
insert_item x [] = x ∷ []
insert_item x (y ∷ ys) = if less y x then y ∷ insert_item x ys else x ∷ y ∷ ys

sort_items : List Item → List Item
sort_items [] = []
sort_items (x ∷ xs) = insert_item x (sort_items xs)

-- `arr[0].id`, and 0 where there is no item.
first_id : List Item → ℕ
first_id [] = 0
first_id (x ∷ xs) = x.id

unfoldable pub new_shard_owner : List Item → ℕ
unfolding sort_items insert_item first_id
new_shard_owner freqs = first_id (sort_items freqs)
