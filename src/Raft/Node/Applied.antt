-- ===== src/Raft/Node/Applied.antt =====
-- An entry that is applied takes a node from the metadata before it to those behind it.
use mathlib.Core.Path.{subst}
use chronus.Base.{
  ℕ, suc, ◌≡◌, inl, inr, refl, sym, ap, ◌∙◌, arith, Bool, false, List, [], ◌∷◌, Option, none, some,
  String, Outcome, ok, err, panic, ◌==◌, ◌==ₛ◌, Bool-cases, Option-cases,
}
use chronus.Raft.Node.{
  MetaStore, Codec, Message, command, acquire_lease, snapshot, create_checksum, verify_checksum,
  unknown, Payload, conf_change, empty, malformed, proposal, Entry, ProposalCtx, NodeError,
  Returned, malformed_entry, panicked, checksum_mismatch, RaftNode, pctx, set_index, wants, crash,
  done, done_at, set_applied_index,
}
use chronus.Raft.Node.Log.{
  payload_effect, upto, PayloadSound, At, IsReplica, runs, ended, Applies, goes_on, ends,
}
use chronus.Raft.Node.Entries.{
  apply_message, apply_committed, finish, apply_payload, verify, take_snapshot,
}

module _ {C D B S E R : Type 0} (meta : MetaStore C D B S E R) (codec : Codec D B)
    (log : List (Entry C)) (start : D) where
  unchanged :
      (i : ℕ) (n : RaftNode B S E R) (m : RaftNode B S E R)
      → upto meta codec log start (suc i) ≡ upto meta codec log start i
      → At meta codec log start i n
      → m.store ≡ n.store
      → m.saved ≡ n.saved
      → m.crashed ≡ n.crashed
      → At meta codec log start (suc i) m
  unchanged i n m same at store saved crashed = record {
    set = rw store at.set;
    replayed = rw store (at.replayed ∙ sym same);
    saved = rw saved at.saved;
    running = crashed ∙ at.running;
  }

  verify-Applies :
      (i j sender : ℕ) (sum : String) (n : RaftNode B S E R)
      → upto meta codec log start (suc i) ≡ upto meta codec log start i
      → At meta codec log start i n
      → Applies meta codec log start i (verify j sum sender n)
  unfolding verify crash
  verify-Applies i j sender sum n same at = elim (Bool-cases (sender == n.id)) [
    | inl own ↦ rw own (goes_on (unchanged i n _ same at refl refl refl))
    | inr other ↦ elim (Bool-cases (n.last_checksum.index == 0)) [
      | inl fresh ↦ rw (other, fresh) (goes_on (unchanged i n n same at refl refl refl))
      | inr made ↦ elim (Bool-cases (n.last_checksum.index == j)) [
        | inr off ↦ rw (other, made, off) (goes_on (unchanged i n n same at refl refl refl))
        | inl meant ↦ elim (Bool-cases (n.last_checksum.checksum ==ₛ sum)) [
          | inl agree ↦
              rw (other, made, meant, agree) (goes_on (unchanged i n n same at refl refl refl))
          | inr differ ↦
              rw (other, made, meant, differ)
                (ends checksum_mismatch refl refl (λ h. cc (h)) at.saved)
        ]
      ]
    ]
  ]

  verify-props :
      (j : ℕ) (sum : String) (sender : ℕ) (n : RaftNode B S E R)
      → (verify j sum sender n).1.props ≡ n.props
  unfolding verify crash
  verify-props j sum sender n = ground arith

  module _ (clock : ℕ → ℕ) (salt : String) where
    -- A snapshot of the metadata after the next entry, which does not change them.
    take_snapshot-Applies :
        (i : ℕ) (n : RaftNode B S E R)
        → upto meta codec log start (suc i) ≡ upto meta codec log start i
        → At meta codec log start i n
        → Applies meta codec log start i (take_snapshot meta codec clock salt (suc i) n)
    unfolding take_snapshot
    take_snapshot-Applies i n same at = elim (Option-cases (meta.marshal_binary salt n.store)) [
      | inl fails ↦ rw (take_snapshot, fails) (goes_on (unchanged i n n same at refl refl refl))
      | inr (md, encodes) ↦
          elim (Option-cases (codec.encode (record { data_ = md; peers_addr = n.peers }))) [
            | inl fails ↦
                rw (take_snapshot, encodes, fails)
                  (goes_on (unchanged i n n same at refl refl refl))
            | inr (b, done_) ↦
                rw (take_snapshot, encodes, done_)
                  (goes_on (record {
                    set = at.set;
                    replayed = at.replayed ∙ sym same;
                    saved = (
                      record { data_ = md; peers_addr = n.peers },
                      codec.decode-encode _ b done_,
                      meta.unmarshal-marshal salt n.store md encodes ∙ at.replayed ∙ sym same,
                    );
                    running = at.running;
                  }))
          ]
    ]

    take_snapshot-props :
        (i : ℕ) (n : RaftNode B S E R) → (take_snapshot meta codec clock salt i n).1.props ≡ n.props
    unfolding take_snapshot
    take_snapshot-props i n = elim (Option-cases (meta.marshal_binary salt n.store)) [
      | inl fails ↦ rw (take_snapshot, fails) refl
      | inr (md, encodes) ↦
          elim (Option-cases (codec.encode (record { data_ = md; peers_addr = n.peers }))) [
            | inl fails ↦ rw (take_snapshot, encodes, fails) refl
            | inr (b, done_) ↦ rw (take_snapshot, encodes, done_) refl
          ]
    ]

    -- An entry's message is applied.
    apply_message-Applies :
        (i : ℕ) (wanted : Bool) (key : String) (m : Message C) (n : RaftNode B S E R)
        → PayloadSound meta codec log start (proposal key m)
        → upto meta codec log start (suc i)
          ≡ payload_effect meta (proposal key m) (upto meta codec log start i)
        → At meta codec log start i n
        → Applies meta codec log start i (apply_message meta codec clock salt wanted (suc i) m n)
    unfolding apply_message payload_effect
    apply_message-Applies i wanted key (command c) n sound effect at = goes_on (record {
      set = meta.execute-IsConfigured clock salt c n.store sound at.set;
      replayed =
          meta.execute-effect clock salt c n.store sound at.set
          ∙ ap (meta.effect c) at.replayed
          ∙ sym effect;
      saved = at.saved;
      running = at.running;
    })
    apply_message-Applies i wanted key (acquire_lease name node t) n sound effect at =
        goes_on (unchanged i n _ effect at refl refl refl)
    apply_message-Applies i wanted key snapshot n sound effect at =
        take_snapshot-Applies i n effect at
    apply_message-Applies i wanted key create_checksum n sound effect at =
        goes_on (unchanged i n _ effect at refl refl refl)
    apply_message-Applies i wanted key (verify_checksum j sum sender) n sound effect at =
        verify-Applies i j sender sum n effect at
    apply_message-Applies i wanted key unknown n sound effect at =
        goes_on (unchanged i n n effect at refl refl refl)

    apply_message-props :
        (i : ℕ) (wanted : Bool) (m : Message C) (n : RaftNode B S E R)
        → (apply_message meta codec clock salt wanted i m n).1.props ≡ n.props
    unfolding apply_message
    apply_message-props i wanted (command c) n = refl
    apply_message-props i wanted (acquire_lease name node t) n = refl
    apply_message-props i wanted snapshot n = take_snapshot-props i n
    apply_message-props i wanted create_checksum n = refl
    apply_message-props i wanted (verify_checksum j sum sender) n = verify-props j sum sender n
    apply_message-props i wanted unknown n = refl

    -- The proposer is told, if it waits: its entry has an index.
    abbrev Indexed : ℕ → Option ProposalCtx → Type 0
    Indexed i none = Unit
    Indexed i (some p) = p.index ≡ suc i

    pctx-set_index :
        (key : String) (i : ℕ) (props : List (String × ProposalCtx))
        → Indexed i (pctx key (set_index key (suc i) props))
    unfolding pctx set_index
    pctx-set_index key i [] = tt
    pctx-set_index key i (x ∷ xs) = elim (Bool-cases (x.0 ==ₛ key)) [
      | inl same ↦ rw (set_index, same, pctx, same) refl
      | inr other ↦ rw (set_index, other, pctx, other) (pctx-set_index key i xs)
    ]

    done_at-At :
        (i : ℕ) (o : Option ProposalCtx) (key : String) (v : Outcome (NodeError E) (Returned R))
        (n : RaftNode B S E R)
        → Indexed i o
        → At meta codec log start (suc i) n
        → At meta codec log start (suc i) (done_at o key v n)
    unfolding done_at
    done_at-At i none key v n indexed at = at
    done_at-At i (some p) key v n indexed at =
        let there : (p.index == 0) ≡ false = ground (arith, indexed) in
        rw there
          (record { set = at.set; replayed = at.replayed; saved = at.saved; running = at.running })

    done-At :
        (i : ℕ) (key : String) (v : Outcome (NodeError E) (Returned R)) (n : RaftNode B S E R)
        → Indexed i (pctx key n.props)
        → At meta codec log start (suc i) n
        → At meta codec log start (suc i) (done key v n)
    unfolding done
    done-At i key v n indexed at = elim (Bool-cases (key ==ₛ "")) [
      | inl internal ↦ rw (done, internal) at
      | inr waits ↦ rw (done, waits) (done_at-At i (pctx key n.props) key v n indexed at)
    ]

    set_applied_index-IsReplica :
        (i : ℕ) (n : RaftNode B S E R)
        → At meta codec log start i n
        → IsReplica meta codec log start (set_applied_index i n)
    unfolding set_applied_index
    set_applied_index-IsReplica i n at =
        runs
          (record { set = at.set; replayed = at.replayed; saved = at.saved; running = at.running })

    finish-IsReplica :
        (i : ℕ) (key : String) (r : Outcome (NodeError E) (Returned R) × RaftNode B S E R)
        → Indexed i (pctx key r.1.props)
        → Applies meta codec log start i r
        → IsReplica meta codec log start (finish meta codec clock salt key (suc i) r)
    unfolding finish crash
    finish-IsReplica i key (ok v, n) indexed (goes_on at) =
        set_applied_index-IsReplica (suc i) _ (done-At i key (ok v) n indexed at)
    finish-IsReplica i key (err e, n) indexed (goes_on at) =
        set_applied_index-IsReplica (suc i) _ (done-At i key (err e) n indexed at)
    finish-IsReplica i key (panic, n) indexed (goes_on at) =
        rw (finish, at.running) (ended panicked refl (λ e. cc (e)) at.saved)
    finish-IsReplica i key (ok v, n) indexed (ends why fails h a saved) = cc (fails)
    finish-IsReplica i key (err e, n) indexed (ends why fails h a saved) = cc (fails)
    finish-IsReplica i key (panic, n) indexed (ends why fails h a saved) =
        rw (finish, h) (ended why h a saved)

    conf_change-IsReplica :
        (i : ℕ) (peers : List (ℕ × String)) (n : RaftNode B S E R)
        → At meta codec log start i n
        → IsReplica meta codec log start (set_applied_index i (record n { peers = peers }))
    unfolding set_applied_index
    conf_change-IsReplica i peers n at =
        runs
          (record { set = at.set; replayed = at.replayed; saved = at.saved; running = at.running })

    pub apply_payload-IsReplica :
        (i : ℕ) (p : Payload C) (n : RaftNode B S E R)
        → PayloadSound meta codec log start p
        → upto meta codec log start (suc i) ≡ payload_effect meta p (upto meta codec log start i)
        → At meta codec log start i n
        → IsReplica meta codec log start (apply_payload meta codec clock salt (suc i) p n)
    unfolding apply_payload payload_effect crash apply_committed
    apply_payload-IsReplica i (conf_change cc) n sound effect at =
        conf_change-IsReplica (suc i) _ n (unchanged i n n effect at refl refl refl)
    apply_payload-IsReplica i empty n sound effect at =
        set_applied_index-IsReplica (suc i) n (unchanged i n n effect at refl refl refl)
    apply_payload-IsReplica i malformed n sound effect at =
        ended malformed_entry refl (λ e. cc (e)) at.saved
    apply_payload-IsReplica i (proposal key m) n sound effect at =
        let marked = record n { props = set_index key (suc i) n.props } in
        let wanted = wants (pctx key n.props) in
        finish-IsReplica i key _
          (subst (λ props. Indexed i (pctx key props))
            (sym (apply_message-props (suc i) wanted m marked)) (pctx-set_index key i n.props))
          (apply_message-Applies i wanted key m marked sound effect (record {
            set = at.set;
            replayed = at.replayed;
            saved = at.saved;
            running = at.running;
          }))
