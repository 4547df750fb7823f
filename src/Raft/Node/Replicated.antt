-- ===== src/Raft/Node/Replicated.antt =====
-- Every node has what the log makes of the metadata, up to the index that it has applied.
use mathlib.Core.Path.{subst}
use chronus.Base.{
  ℕ, suc, ◌≡◌, inl, inr, refl, sym, ap, ◌∙◌, arith, List, [], ◌∷◌, Option, none, some, String, ◌==◌,
  leb, All, Bool-cases, Option-cases,
}
use chronus.Raft.Leases.{ClusterLeases}
use chronus.Raft.Node.{
  MetaStore, Codec, Entry, Snapshot, gap, key_taken, RaftNode, pctx, crash, store_proposal,
  delete_proposal,
}
use chronus.Raft.Node.Log.{
  replay, replay-take, upto, InLog, SavedSound, Happens, At, IsReplica, runs, ended,
}
use chronus.Raft.Node.Entries.{
  apply_payload, process_entry, restore, restore_decoded, past_life, start_from, restart, Event,
  deliver, receive_snapshot, restore_saved, reboot, propose, give_up, handle, handle_or_not, run,
}
use chronus.Raft.Node.Applied.{apply_payload-IsReplica}

module _ {C D B S E R : Type 0} (meta : MetaStore C D B S E R) (codec : Codec D B)
    (log : List (Entry C)) (start : D) where
  process_entry-IsReplica :
      (clock : ℕ → ℕ) (salt : String) (e : Entry C) (n : RaftNode B S E R)
      → InLog meta codec log start e
      → At meta codec log start n.applied_index n
      → IsReplica meta codec log start (process_entry meta codec clock salt e n)
  unfolding process_entry crash
  process_entry-IsReplica clock salt e n (i, there, numbered, sound) at =
      elim (Bool-cases (leb e.index n.applied_index)) [
        | inl old ↦ rw old (runs at)
        | inr new ↦ elim (Bool-cases (e.index == suc n.applied_index)) [
          | inr skips ↦ rw (new, skips) (ended gap refl (λ h. cc (h)) at.saved)
          | inl next ↦
              let here : i ≡ n.applied_index = ground (arith, next, numbered) in
              rw (new, next)
                (subst
                  (λ j.
                    IsReplica meta codec log start
                      (apply_payload meta codec clock salt j e.payload n))
                  (sym numbered)
                  (apply_payload-IsReplica meta codec log start clock salt i e.payload n sound
                    (replay-take meta log i e start there)
                    (subst (λ j. At meta codec log start j n) (sym here) at)))
        ]
      ]

  restore-IsReplica :
      (o : Option (Snapshot B)) (n : RaftNode B S E R)
      → SavedSound meta codec log start o
      → At meta codec log start n.applied_index n
      → IsReplica meta codec log start (restore meta codec o n)
  unfolding restore restore_decoded
  restore-IsReplica none n sound at = runs at
  restore-IsReplica (some sp) n (data_, decodes, sound) at = rw decodes (
      runs (record {
        set = meta.replace_data-IsConfigured _ n.store at.set;
        replayed = meta.get_data-replace_data _ n.store ∙ sound;
        saved = at.saved;
        running = at.running;
      }))

  -- A new process reads what the storage has kept.
  start_from-IsReplica :
      (o : Option (Snapshot B)) (id : ℕ) (s : S) (leases : ClusterLeases)
      (peers : List (ℕ × String))
      → meta.IsConfigured s
      → meta.get_data s ≡ start
      → SavedSound meta codec log start o
      → IsReplica meta codec log start (start_from meta codec o id s leases peers)
  unfolding start_from restore restore_decoded past_life replay
  start_from-IsReplica none id s leases peers set new sound =
      runs (record { set = set; replayed = new; saved = tt; running = refl })
  start_from-IsReplica (some sp) id s leases peers set new (data_, decodes, sound) = rw decodes (
      runs (record {
        set = meta.replace_data-IsConfigured _ s set;
        replayed = meta.get_data-replace_data _ s ∙ sound;
        saved = (data_, decodes, sound);
        running = refl;
      }))

  handle-IsReplica :
      (e : Event C B S) (n : RaftNode B S E R)
      → Happens meta codec log start e
      → At meta codec log start n.applied_index n
      → IsReplica meta codec log start (handle meta codec e n)
  unfolding handle restart store_proposal delete_proposal crash
  handle-IsReplica (deliver e clock salt) n fits at = process_entry-IsReplica clock salt e n fits at
  handle-IsReplica (receive_snapshot sp) n fits at =
      runs (record { set = at.set; replayed = at.replayed; saved = fits; running = at.running })
  handle-IsReplica restore_saved n fits at = restore-IsReplica n.saved n at.saved at
  handle-IsReplica (reboot s leases peers) n (set, new) at =
      start_from-IsReplica n.saved n.id s leases peers set new at.saved
  handle-IsReplica (propose key ret_data) n fits at = elim (Option-cases (pctx key n.props)) [
    | inl free ↦
        rw (handle, store_proposal, free)
          (runs (record {
            set = at.set;
            replayed = at.replayed;
            saved = at.saved;
            running = at.running;
          }))
    | inr (p, taken) ↦
        rw (handle, store_proposal, taken) (ended key_taken refl (λ h. cc (h)) at.saved)
  ]
  handle-IsReplica (give_up key) n fits at =
      runs (record { set = at.set; replayed = at.replayed; saved = at.saved; running = at.running })

  handle_or_not-IsReplica :
      (e : Event C B S) (n : RaftNode B S E R)
      → Happens meta codec log start e
      → IsReplica meta codec log start n
      → IsReplica meta codec log start (handle_or_not meta codec n.crashed e n)
  unfolding handle_or_not restart
  handle_or_not-IsReplica e n fits (runs at) =
      subst (λ c. IsReplica meta codec log start (handle_or_not meta codec c e n)) (sym at.running)
        (handle-IsReplica e n fits at)
  handle_or_not-IsReplica e n fits (ended why h a saved) =
      subst (λ c. IsReplica meta codec log start (handle_or_not meta codec c e n)) (sym h)
        (still e fits)
    where
      still :
          (e : Event C B S)
          → Happens meta codec log start e
          → IsReplica meta codec log start (handle_or_not meta codec (some why) e n)
      still (deliver e clock salt) fits = ended why h a saved
      still (receive_snapshot sp) fits = ended why h a saved
      still restore_saved fits = ended why h a saved
      still (propose key ret_data) fits = ended why h a saved
      still (give_up key) fits = ended why h a saved
      still (reboot s leases peers) fits =
          start_from-IsReplica n.saved n.id s leases peers fits.0 fits.1 saved

  -- Through entries of the log that are delivered in any order and again and again, snapshots that
  -- decode to what the log makes of the metadata, restores, restarts and proposals, a node that runs
  -- has exactly what the log up to its applied index makes of the first metadata, and a snapshot
  -- that it keeps decodes to what the log makes of it up to the snapshot's index. One that has ended
  -- did so for another reason than a proposal without an index. The requests of the log have their
  -- times, and the encodings of snapshots and of the metadata give back what they encode.
  pub run-IsReplica :
      (es : List (Event C B S)) (n : RaftNode B S E R)
      → All (Happens meta codec log start) es
      → IsReplica meta codec log start n
      → IsReplica meta codec log start (run meta codec es n)
  unfolding run
  run-IsReplica [] n fit good = good
  run-IsReplica (e ∷ es) n fit good =
      run-IsReplica es _ fit.1 (handle_or_not-IsReplica e n fit.0 good)

  -- Two nodes that have been through entries of one log, snapshots that decode to what it makes of
  -- the metadata, restores, restarts and proposals, and that run with one applied index, have the
  -- same metadata, though each has its own clock, cache and order of maps. The requests of the log
  -- have their times, and the encodings of snapshots and of the metadata give back what they encode.
  pub replicas_agree :
      (es fs : List (Event C B S)) (n m : RaftNode B S E R)
      → All (Happens meta codec log start) es
      → All (Happens meta codec log start) fs
      → IsReplica meta codec log start n
      → IsReplica meta codec log start m
      → (run meta codec es n).crashed ≡ none
      → (run meta codec fs m).crashed ≡ none
      → (run meta codec es n).applied_index ≡ (run meta codec fs m).applied_index
      → meta.get_data (run meta codec es n).store ≡ meta.get_data (run meta codec fs m).store
  replicas_agree es fs n m fit fit' good good' up up' level =
      replica (run-IsReplica es n fit good) up
      ∙ ap (upto meta codec log start) level
      ∙ sym (replica (run-IsReplica fs m fit' good') up')
    where
      replica :
          {n : RaftNode B S E R}
          → IsReplica meta codec log start n
          → n.crashed ≡ none
          → meta.get_data n.store ≡ upto meta codec log start n.applied_index
      replica (runs at) up = at.replayed
      replica (ended why h a saved) up = absurd (cc (h, up))
