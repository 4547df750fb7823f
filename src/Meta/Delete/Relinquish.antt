-- ===== src/Meta/Delete/Relinquish.antt =====
-- How DeleteDataNode takes the node from the owners of a shard.
use chronus.Base.{
  ℕ, suc, ◌+◌, ◌≡◌, ◌≢◌, refl, ap, ◌∙◌, ◌⊎◌, inl, inr, Bool, false, ◌||◌, List, [], ◌∷◌, Option,
  none, some, arith, All, Distinct, contains, ◌==◌, Bool-cases, ==_iff,
}
use native.Mathlib.Nat.{zero-add}
use chronus.Meta.Types.{ShardInfo}
use chronus.Meta.Nodes.Freeze.{remove_at}
use chronus.Meta.Owners.{Item, bump}
use chronus.Meta.Delete.{scan_owners, relinquish}

-- The owners of a shard before the removal: each a node's id, and none twice.
abbrev pub OwnersValid : ShardInfo → Type 0
OwnersValid s = Distinct s.owners × All (λ o. o ≢ 0) s.owners

∨_false : {a b : Bool} → (a || b) ≡ false → (a ≡ false) × (b ≡ false)
∨_false h = ground arith

-- Where an owner stands whose id is looked for: the scan and the removal together.
scan_owners_absent :
    (id i : ℕ) (os : List ℕ) (idx : Option ℕ) (freqs : List Item)
    → contains id os ≡ false
    → (scan_owners id i os idx freqs).0 ≡ idx
unfolding scan_owners
scan_owners_absent id i [] idx freqs h = refl
scan_owners_absent id i (o ∷ os) idx freqs h =
    let other : (o == id) ≡ false = (∨_false h).0 in
    rw (other, scan_owners) (scan_owners_absent id (suc i) os idx (bump o freqs) (∨_false h).1)

-- The scan, started with no index, finds the one owner with the id, if there is one.
scan_owners_index :
    (id i : ℕ) (os : List ℕ) (freqs : List Item)
    → Distinct os
    → ((contains id os ≡ false) × ((scan_owners id i os none freqs).0 ≡ none))
      ⊎ ((k : ℕ) × ((scan_owners id i os none freqs).0 ≡ some (i + k))
          × (contains id (remove_at k os) ≡ false))
unfolding scan_owners
scan_owners_index id i [] freqs h = inl (refl, refl)
scan_owners_index id i (o ∷ os) freqs h = elim (Bool-cases (o == id)) [
  | inl found ↦
      let absent : contains id os ≡ false = rw ((==_iff o id).0 found) at h.0 in
      inr (
        0,
        rw (found, scan_owners)
            (scan_owners_absent id (suc i) os (some i) (bump o freqs) absent
              ∙ ap some (omega arith)),
        absent,
      )
  | inr other ↦ elim (scan_owners_index id (suc i) os (bump o freqs) h.1) [
    | inl (absent, e) ↦ inl (rw other absent, rw (other, scan_owners) e)
    | inr (k, e, gone) ↦
        inr (suc k, rw (other, scan_owners) (e ∙ ap some (omega arith)), rw other gone)
  ]
]

-- After the removal no owner of the shard has the id.
pub relinquish_gone :
    (id : ℕ) (s : ShardInfo) (freqs : List Item)
    → Distinct s.owners
    → contains id (relinquish (scan_owners id 0 s.owners none freqs).0 s).owners ≡ false
unfolding relinquish
relinquish_gone id s freqs h = elim (scan_owners_index id 0 s.owners freqs h) [
  | inl (absent, e) ↦ rw e absent
  | inr (k, e, gone) ↦ rw (e, zero-add) gone
]

pub id-relinquish : (i : Option ℕ) (s : ShardInfo) → (relinquish i s).id ≡ s.id
unfolding relinquish
id-relinquish none s = refl
id-relinquish (some i) s = refl
