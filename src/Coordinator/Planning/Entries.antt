-- ===== src/Coordinator/Planning/Entries.antt =====
-- What holds of each entry of a plan: a rule for PlanNodes by the way that entries come to be.
use mathlib.Core.Path.{subst}
use chronus.Base.{
  ℕ, ◌<◌, ◌≡◌, refl, Bool, true, not, ◌&&◌, ◌||◌, List, [], ◌∷◌, ◌++◌, some, arith, length,
  contains, contains-get_or, ◌==◌, All, Bool-cases, Option-cases, inl, inr,
}
use chronus.Meta.Types.{ShardInfo}
use chronus.Coordinator.Planning.{
  Plan, get_owners, add_shard, selected_owner, choose, plan_remote, plan_shard, plan_shards,
  plan_nodes,
}

-- A node that may serve a shard: an owner that is this node or not on the blacklist.
abbrev pub may_serve : ℕ → List ℕ → ℕ → ShardInfo → Bool
may_serve current blacklist node shard =
    contains node shard.owners && (node == current || not (contains node blacklist))

-- rand.Intn gives a number below its argument.
abbrev pub IsIntn : (ℕ → ℕ → ℕ) → Type 0
IsIntn intn = (k n : ℕ) → 0 < n → intn k n < n

contains-get_owners :
    (blacklist owners : List ℕ) (node : ℕ)
    → contains node (get_owners blacklist owners)
      ≡ (contains node owners && not (contains node blacklist))
unfolding get_owners
contains-get_owners blacklist [] node = refl
contains-get_owners blacklist (owner ∷ owners) node =
    let rest = contains-get_owners blacklist owners node in
    elim (Bool-cases (owner == node)) [
      | inl same ↦
          let equal : owner ≡ node = ground (arith, same) in rw equal (ground (arith, rest))
      | inr apart ↦ ground (arith, rest, apart)
    ]

-- An owner that was selected is one of the owners.
contains-selected_owner :
    (owners : List ℕ) (plan : Plan) (node : ℕ)
    → selected_owner owners plan ≡ some node
    → contains node owners ≡ true
unfolding selected_owner
contains-selected_owner [] plan node h = ground (arith, h)
contains-selected_owner (owner ∷ owners) plan node h =
    let rest = contains-selected_owner owners plan node in grind (arith, rest)

module _ (current : ℕ) (blacklist : List ℕ) (intn : ℕ → ℕ → ℕ) (random : IsIntn intn) where
  chosen :
      (k : ℕ) (owners : List ℕ) (plan : Plan)
      → 0 < length owners
      → contains (choose current blacklist intn k owners (selected_owner owners plan)) owners ≡ true
  unfolding choose
  chosen k owners plan some_owner = elim (Option-cases (selected_owner owners plan)) [
    | inl nothing ↦
        rw nothing
          (contains-get_or owners (intn k (length owners)) (random k (length owners) some_owner))
    | inr (node, found) ↦ rw found (contains-selected_owner owners plan node found)
  ]

-- Every entry satisfies `P`.
abbrev pub Entries : (ℕ → List ShardInfo → Type 0) → Plan → Type 0
Entries P plan = All (λ entry. P entry.0 entry.1) plan

-- The shards satisfy `Q`; an entry begins with a shard, and takes one, that its node may serve.
pub record IsGrown (current : ℕ) (blacklist : List ℕ) (Q : ShardInfo → Type 0)
    (P : ℕ → List ShardInfo → Type 0) : Type 0 where
  pub starts :
      (node : ℕ) (shard : ShardInfo)
      → Q shard
      → may_serve current blacklist node shard ≡ true
      → P node (shard ∷ [])
  pub grows :
      (node : ℕ) (shards : List ShardInfo) (shard : ShardInfo)
      → P node shards
      → Q shard
      → may_serve current blacklist node shard ≡ true
      → P node (shards ++ shard ∷ [])

module _ (current : ℕ) (blacklist : List ℕ) (Q : ShardInfo → Type 0)
    (P : ℕ → List ShardInfo → Type 0) (grown : IsGrown current blacklist Q P) where
  Entries-add_shard :
      (node : ℕ) (shard : ShardInfo) (plan : Plan)
      → Q shard
      → may_serve current blacklist node shard ≡ true
      → Entries P plan
      → Entries P (add_shard node shard plan)
  unfolding add_shard
  Entries-add_shard node shard [] q serves holds = (grown.starts node shard q serves, tt)
  Entries-add_shard node shard (entry ∷ plan) q serves holds =
      let rest = Entries-add_shard node shard plan q serves holds.1 in
      elim (Bool-cases (entry.0 == node)) [
        | inl same ↦
            let equal : entry.0 ≡ node = ground (arith, same) in
            rw same (
              grown.grows node entry.1 shard (subst (λ n. P n entry.1) equal holds.0) q serves,
              holds.1,
            )
        | inr apart ↦ rw apart (holds.0, rest)
      ]

  module _ (intn : ℕ → ℕ → ℕ) (random : IsIntn intn) where
    -- A shard that is not here goes to one of the owners that are left.
    Entries-plan_remote :
        (k : ℕ) (owners : List ℕ) (shard : ShardInfo) (plan : Plan)
        → Q shard
        → ((node : ℕ) → contains node owners ≡ true → may_serve current blacklist node shard ≡ true)
        → Entries P plan
        → Entries P (plan_remote current blacklist intn k owners shard plan)
    unfolding plan_remote
    Entries-plan_remote k [] shard plan q serve holds = holds
    Entries-plan_remote k (owner ∷ owners) shard plan q serve holds =
        Entries-add_shard _ shard plan q
          (serve _ (chosen current blacklist intn random k (owner ∷ owners) plan (omega arith)))
          holds

    Entries-plan_shard :
        (k : ℕ) (shard : ShardInfo) (plan : Plan)
        → Q shard
        → Entries P plan
        → Entries P (plan_shard current blacklist intn k shard plan)
    unfolding plan_shard
    Entries-plan_shard k shard plan q holds =
        let remote =
          Entries-plan_remote k (get_owners blacklist shard.owners) shard plan q
            (λ node h.
              let owned = contains-get_owners blacklist shard.owners node in
              ground (arith, h, owned))
            holds in
        elim (Bool-cases (contains current shard.owners)) [
          | inl here ↦
              let serves : may_serve current blacklist current shard ≡ true =
                ground (arith, here) in
              rw here (Entries-add_shard current shard plan q serves holds)
          | inr away ↦ rw away remote
        ]

    Entries-plan_shards :
        (shards : List ShardInfo) (plan : Plan)
        → All Q shards
        → Entries P plan
        → Entries P (plan_shards current blacklist intn shards plan)
    unfolding plan_shards
    Entries-plan_shards [] plan qs holds = holds
    Entries-plan_shards (shard ∷ shards) plan qs holds =
        Entries-plan_shards shards _ qs.1 (Entries-plan_shard (length shards) shard plan qs.0 holds)

    pub Entries-plan_nodes :
        (shuffle : List ShardInfo → List ShardInfo) (shards : List ShardInfo)
        → All Q (shuffle shards)
        → Entries P (plan_nodes current blacklist intn shuffle shards)
    unfolding plan_nodes
    Entries-plan_nodes shuffle shards qs = Entries-plan_shards (shuffle shards) [] qs tt
