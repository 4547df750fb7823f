-- ===== src/Raft/Node/Answered.antt =====
-- What the proposer of a command is told.
use chronus.Base.{
  ℕ, suc, ◌≡◌, ◌≢◌, refl, sym, ap, ◌∙◌, arith, eq_iff, true, false, List, [], ◌∷◌, none, some,
  String, Outcome, ok, err, panic, ◌==◌, ◌==ₛ◌, leb, Bool-cases, inl, inr,
}
use chronus.Raft.Node.{
  MetaStore, Codec, command, proposal, ProposalCtx, NodeError, Returned, RaftNode, pctx, set_index,
  delete_key, wants, done, done_at, set_applied_index,
}
use chronus.Raft.Node.Entries.{
  hand_over, apply_message, apply_committed, finish, apply_payload, process_entry,
}

pctx-set_index :
    (key : String) (i : ℕ) (p : ProposalCtx) (props : List (String × ProposalCtx))
    → pctx key props ≡ some p
    → pctx key (set_index key i props) ≡ some (record p { index = i })
unfolding pctx set_index
pctx-set_index key i p [] h = cc (h)
pctx-set_index key i p (x ∷ xs) h = elim (Bool-cases (x.0 ==ₛ key)) [
  | inl same ↦ rw (set_index, same, pctx, same) (let e : x.1 ≡ p = cc (rw same at h) in rw e refl)
  | inr other ↦ rw (set_index, other, pctx, other) (pctx-set_index key i p xs (rw other at h))
]

pctx-set_index_other :
    (k key : String) (i : ℕ) (props : List (String × ProposalCtx))
    → (k ==ₛ key) ≡ false
    → pctx k (set_index key i props) ≡ pctx k props
unfolding pctx set_index
pctx-set_index_other k key i [] ne = refl
pctx-set_index_other k key i (x ∷ xs) ne =
    ground (arith, pctx-set_index_other k key i xs ne, eq_iff x.0 k, eq_iff x.0 key, eq_iff k key)

pctx-delete_key :
    (key : String) (props : List (String × ProposalCtx)) → pctx key (delete_key key props) ≡ none
unfolding pctx delete_key
pctx-delete_key key [] = refl
pctx-delete_key key (x ∷ xs) = ground (arith, pctx-delete_key key xs)

pctx-delete_key_other :
    (k key : String) (props : List (String × ProposalCtx))
    → (k ==ₛ key) ≡ false
    → pctx k (delete_key key props) ≡ pctx k props
unfolding pctx delete_key
pctx-delete_key_other k key [] ne = refl
pctx-delete_key_other k key (x ∷ xs) ne =
    ground (arith, pctx-delete_key_other k key xs ne, eq_iff x.0 k, eq_iff x.0 key, eq_iff k key)

module _ {C D B S E R : Type 0} (meta : MetaStore C D B S E R) (codec : Codec D B) (clock : ℕ → ℕ)
    (salt : String) where
  -- The proposal under the key is done; what stands under another key is as before.
  done-answers :
      (key : String) (o : Outcome (NodeError E) (Returned R)) (p : ProposalCtx)
      (n : RaftNode B S E R)
      → (key ==ₛ "") ≡ false
      → pctx key n.props ≡ some p
      → p.index ≢ 0
      → ((done key o n).answers ≡ (key, o) ∷ n.answers)
        × ((done key o n).props ≡ delete_key key n.props)
  unfolding done done_at
  done-answers key o p n named waits indexed = elim (Bool-cases (p.index == 0)) [
    | inl zero_index ↦ absurd (indexed (ground (arith, zero_index)))
    | inr there ↦ rw (done, named, waits, done_at, there) (refl, refl)
  ]

  finish-answers :
      (key : String) (i : ℕ) (p : ProposalCtx)
      (r : Outcome (NodeError E) (Returned R) × RaftNode B S E R)
      → (key ==ₛ "") ≡ false
      → pctx key r.1.props ≡ some p
      → p.index ≢ 0
      → r.0 ≢ panic
      → ((finish meta codec clock salt key i r).answers ≡ (key, r.0) ∷ r.1.answers)
        × ((finish meta codec clock salt key i r).props ≡ delete_key key r.1.props)
        × ((finish meta codec clock salt key i r).applied_index ≡ i)
  unfolding finish set_applied_index
  finish-answers key i p (ok v, n) named waits indexed goes_on =
      let (told, left) = done-answers key (ok v) p n named waits indexed in (told, left, refl)
  finish-answers key i p (err e, n) named waits indexed goes_on =
      let (told, left) = done-answers key (err e) p n named waits indexed in (told, left, refl)
  finish-answers key i p (panic, n) named waits indexed goes_on = absurd (goes_on refl)

  -- When the next entry is a command that this node proposed, under a key that is not empty, and it
  -- does not panic, the proposer is told, once and last, the error of the command on this node's
  -- store, or its result if it wants that. Nothing stands under the key any more, and the other
  -- proposals wait as before.
  pub process_entry-answers :
      (key : String) (c : C) (p : ProposalCtx) (n : RaftNode B S E R)
      → (key ==ₛ "") ≡ false
      → pctx key n.props ≡ some p
      → hand_over meta codec clock salt p.ret_data (meta.execute clock salt c n.store).0 ≢ panic
      → (let n' =
            process_entry meta codec clock salt
              (record { index = suc n.applied_index; payload = proposal key (command c) })
              n in
          (n'.answers
            ≡ (
              key,
              hand_over meta codec clock salt p.ret_data (meta.execute clock salt c n.store).0,
            )
              ∷ n.answers)
          × (pctx key n'.props ≡ none)
          × ((k : String) → (k ==ₛ key) ≡ false → pctx k n'.props ≡ pctx k n.props)
          × (n'.applied_index ≡ suc n.applied_index))
  unfolding process_entry apply_payload apply_committed apply_message wants
  process_entry-answers key c p n named waits goes_on =
      let i = suc n.applied_index in
      let new : leb (suc n.applied_index) n.applied_index ≡ false = ground arith in
      let next : (suc n.applied_index == suc n.applied_index) ≡ true = ground arith in
      let r = apply_committed meta codec clock salt key i (command c) n in
      let same : r.0
          ≡ hand_over meta codec clock salt p.ret_data (meta.execute clock salt c n.store).0 =
        rw waits refl in
      let (told, left, applied) =
        finish-answers key i (record p { index = i }) r named (pctx-set_index key i p n.props waits)
          (λ h. omega (arith, h)) (λ h. goes_on (sym same ∙ h)) in
      rw (process_entry, new, next)
        (
          told ∙ ap (λ o. (key, o) ∷ n.answers) same,
          ap (pctx key) left ∙ pctx-delete_key key (set_index key i n.props),
          (λ k ne.
              ap (pctx k) left
              ∙ pctx-delete_key_other k key (set_index key i n.props) ne
              ∙ pctx-set_index_other k key i n.props ne),
          applied,
        )
