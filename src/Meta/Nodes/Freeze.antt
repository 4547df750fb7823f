-- ===== src/Meta/Nodes/Freeze.antt =====
-- services/meta/data.go: FreezeDataNode, UnfreezeDataNode, IsFreezeDataNode and getFreezed.
use chronus.Base.{
  ℕ, suc, ◌≡◌, refl, ap, Bool, true, false, ◌||◌, List, [], ◌∷◌, ◌++◌, Option, none, some, ok, err,
  arith, contains, take, drop, ◌==◌, if◌then◌else◌,
}
use chronus.Meta.Types.{
  Data, Method, node_not_found, node_id_required, node_already_freezed, node_not_freezed,
}
use chronus.Meta.Nodes.{exist_in_nodes}

-- getFreezed, with `none` for -1.
unfoldable pub get_freezed : List ℕ → ℕ → Option ℕ
get_freezed [] id = none
get_freezed (n ∷ ns) id =
    if n == id then some 0 else elim (get_freezed ns id) [ none ↦ none | some i ↦ some (suc i) ]

-- append(l[:i], l[i+1:]...)
abbrev pub remove_at : ℕ → List ℕ → List ℕ
remove_at i l = take i l ++ drop (suc i) l

unfoldable pub is_freeze_data_node : ℕ → Data → Bool
is_freeze_data_node id d = elim (get_freezed d.freezed_data_nodes id) [
  | none ↦ false
  | some i ↦ true
]

unfoldable pub freeze_data_node : ℕ → Method (Unit {0})
freeze_data_node id d =
    if id == 0 then (err node_id_required, d) else elim (exist_in_nodes d.data_nodes id) [
      | none ↦ (err node_not_found, d)
      | some n ↦ elim (get_freezed d.freezed_data_nodes id) [
        | some i ↦ (err node_already_freezed, d)
        | none ↦ (ok tt, record d { freezed_data_nodes = d.freezed_data_nodes ++ id ∷ [] })
      ]
    ]

unfoldable pub unfreeze_data_node : ℕ → Method (Unit {0})
unfreeze_data_node id d =
    if id == 0 then (err node_id_required, d) else elim (exist_in_nodes d.data_nodes id) [
      | none ↦ (err node_not_found, d)
      | some n ↦ elim (get_freezed d.freezed_data_nodes id) [
        | none ↦ (err node_not_freezed, d)
        | some i ↦ (ok tt, record d { freezed_data_nodes = remove_at i d.freezed_data_nodes })
      ]
    ]

-- The test says whether the number stands in the slice.
pub get_freezed-contains :
    (l : List ℕ) (id : ℕ)
    → (elim (get_freezed l id) [ none ↦ false | some i ↦ true ]) ≡ contains id l
unfolding get_freezed
get_freezed-contains [] id = refl
get_freezed-contains (n ∷ ns) id = ground (arith, get_freezed-contains ns id)

pub get_freezed-append :
    (l : List ℕ) (id : ℕ)
    → get_freezed l id ≡ none
    → (i : ℕ) × (get_freezed (l ++ id ∷ []) id ≡ some i) × (remove_at i (l ++ id ∷ []) ≡ l)
unfolding get_freezed
get_freezed-append [] id h = (0, ground arith, refl)
get_freezed-append (n ∷ ns) id h =
    let (i, found, back) = get_freezed-append ns id (ground arith) in
    (suc i, ground (arith, found), ap (◌∷◌ n) back)

contains-append : (x id : ℕ) (l : List ℕ) → contains x (l ++ id ∷ []) ≡ (id == x || contains x l)
contains-append x id [] = refl
contains-append x id (n ∷ ns) = ground (arith, contains-append x id ns)

-- Once a node has been frozen, unfreezing it succeeds and gives back the very state from before.
pub unfreeze-freeze :
    (id : ℕ) (d d' : Data)
    → freeze_data_node id d ≡ (ok tt, d')
    → unfreeze_data_node id d' ≡ (ok tt, d)
unfolding freeze_data_node unfreeze_data_node
unfreeze-freeze id d d' h = ground (arith, get_freezed-append d.freezed_data_nodes id)

-- Freezing a data node that has id
pub freeze_exact :
    (id : ℕ) (d d' : Data) (x : ℕ)
    → freeze_data_node id d ≡ (ok tt, d')
    → is_freeze_data_node x d' ≡ (id == x || is_freeze_data_node x d)
unfolding freeze_data_node is_freeze_data_node
freeze_exact id d d' x h = ground (
  arith,
  contains-append x id d.freezed_data_nodes,
  get_freezed-contains d.freezed_data_nodes x,
  get_freezed-contains d'.freezed_data_nodes x,
)
