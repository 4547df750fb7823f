-- ===== src/Raft/Node/Log.antt =====
-- What the raft log makes of the metadata, and what may happen to a node that applies it.
use chronus.Base.{
  ℕ, zero, suc, ◌≡◌, ◌≢◌, ap, List, [], ◌∷◌, Option, none, some, Outcome, panic, get_elem?, take,
}
use chronus.Raft.Node.{
  MetaStore, Codec, command, acquire_lease, snapshot, create_checksum, verify_checksum, unknown,
  Payload, conf_change, empty, malformed, proposal, Entry, Snapshot, SnapshotData, Crash, NodeError,
  Returned, no_index, RaftNode,
}
use chronus.Raft.Node.Entries.{
  Event, deliver, receive_snapshot, restore_saved, reboot, propose, give_up,
}

module _ {C D B S E R : Type 0} (meta : MetaStore C D B S E R) where
  -- What an entry makes of the metadata, and what a log makes of them.
  unfoldable pub payload_effect : Payload C → D → D
  payload_effect (proposal key (command c)) d = meta.effect c d
  payload_effect (proposal key (acquire_lease name node t)) d = d
  payload_effect (proposal key snapshot) d = d
  payload_effect (proposal key create_checksum) d = d
  payload_effect (proposal key (verify_checksum i sum sender)) d = d
  payload_effect (proposal key unknown) d = d
  payload_effect (conf_change cc) d = d
  payload_effect empty d = d
  payload_effect malformed d = d

  unfoldable pub replay : List (Entry C) → D → D
  replay [] d = d
  replay (e ∷ es) d = replay es (payload_effect e.payload d)

  pub replay-take :
      (log : List (Entry C)) (i : ℕ) (e : Entry C) (d : D)
      → get_elem? log i ≡ some e
      → replay (take (suc i) log) d ≡ payload_effect e.payload (replay (take i log) d)
  unfolding replay
  replay-take [] i e d there = cc
  replay-take (x ∷ log) zero e d there =
      let same : x ≡ e = cc (there) in ap (λ y. payload_effect y.payload d) same
  replay-take (x ∷ log) (suc i) e d there = replay-take log i e (payload_effect x.payload d) there

-- A log of entries from 1 on, whose requests have their times.
module _ {C D B S E R : Type 0} (meta : MetaStore C D B S E R) (codec : Codec D B)
    (log : List (Entry C)) (start : D) where
  abbrev pub upto : ℕ → D
  upto i = replay meta (take i log) start

  abbrev pub PayloadSound : Payload C → Type 0
  PayloadSound (proposal key (command c)) = meta.Timed c
  PayloadSound (proposal key (verify_checksum i sum sender)) = Unit
  PayloadSound (proposal key (acquire_lease name node t)) = Unit
  PayloadSound (proposal key snapshot) = Unit
  PayloadSound (proposal key create_checksum) = Unit
  PayloadSound (proposal key unknown) = Unit
  PayloadSound (conf_change cc) = Unit
  PayloadSound empty = Unit
  PayloadSound malformed = Unit

  abbrev pub InLog : Entry C → Type 0
  InLog e = (i : ℕ) × (get_elem? log i ≡ some e) × (e.index ≡ suc i) × PayloadSound e.payload

  -- The snapshot decodes to what the log makes of the metadata, up to its index.
  abbrev pub SnapshotSound : Snapshot B → Type 0
  SnapshotSound sp =
      (data_ : SnapshotData B) × (codec.decode sp.data_ ≡ some data_)
      × (meta.unmarshal_binary data_.data_ ≡ upto sp.index)

  abbrev pub SavedSound : Option (Snapshot B) → Type 0
  SavedSound none = Unit
  SavedSound (some sp) = SnapshotSound sp

  -- What may happen to a node.
  abbrev pub Happens : Event C B S → Type 0
  Happens (deliver e clock salt) = InLog e
  Happens (receive_snapshot sp) = SnapshotSound sp
  Happens restore_saved = Unit
  Happens (reboot s leases peers) = meta.IsConfigured s × (meta.get_data s ≡ start)
  Happens (propose key ret_data) = Unit
  Happens (give_up key) = Unit

  -- A node that has the metadata after `i` entries.
  pub record At (i : ℕ) (n : RaftNode B S E R) : Type 0 where
    pub set : meta.IsConfigured n.store
    pub replayed : meta.get_data n.store ≡ upto i
    pub saved : SavedSound n.saved
    pub running : n.crashed ≡ none

  -- A node runs, and has the metadata after the entries that it has applied; or it has ended, and
  -- not for a proposal without an index.
  pub data IsReplica (n : RaftNode B S E R) : Type 0 where
    runs : At n.applied_index n → IsReplica n
    ended : (why : Crash) → n.crashed ≡ some why → why ≢ no_index → SavedSound n.saved → IsReplica n

  -- What a message leaves behind entry `i`: the metadata after the next entry, or an ended process.
  pub data Applies (i : ℕ) (r : Outcome (NodeError E) (Returned R) × RaftNode B S E R)
      : Type 0 where
    goes_on : At (suc i) r.1 → Applies i r
    ends :
        (why : Crash)
        → r.0 ≡ panic
        → r.1.crashed ≡ some why
        → why ≢ no_index
        → SavedSound r.1.saved
        → Applies i r
