-- ===== src/Raft/Node/Entries.antt =====
-- raftmeta/apply.go: applyCommitted, and raftmeta/node.go: processApplyCh, restoreFromSnapshot and
-- the restart of a node. A snapshot that the storage is given is saved. The salt stands also for the
-- order in which an encoding walks maps.
use chronus.Base.{
  ℕ, suc, ◌/◌, Bool, true, false, not, List, [], ◌∷◌, Option, none, some, String, Outcome, ok, err,
  panic, ◌==◌, ◌==ₛ◌, leb, if◌then◌else◌,
}
use chronus.Raft.Apply.{time_or}
use chronus.Raft.Leases.{ClusterLeases, Reply, acquire}
use chronus.Raft.Node.{
  MetaStore, Codec, Message, command, acquire_lease, snapshot, create_checksum, verify_checksum,
  unknown, Payload, conf_change, empty, malformed, proposal, Entry, Snapshot, SnapshotData,
  NodeError, store_error, lease_error, unknown_message, Returned, nothing, result, lease, Crash,
  gap, malformed_entry, malformed_snapshot, panicked, checksum_mismatch, RaftNode, pctx, set_index,
  apply_conf_change, wants, crash, done, set_applied_index, store_proposal, delete_proposal,
}

module _ {E R : Type 0} where
  -- The lease, copied if the proposer wants it.
  unfoldable pub lease_result : Bool → Reply → Outcome (NodeError E) (Returned R)
  lease_result wanted (l, some e, leases) = err (lease_error e)
  lease_result true (some l, none, leases) = ok (lease l)
  lease_result true (none, none, leases) = panic
  lease_result false (l, none, leases) = ok nothing

module _ {B S E R : Type 0} where
  -- VerifyChecksumMsg: the sender's own checksum and those of other indexes are passed over.
  unfoldable pub verify :
      ℕ → String → ℕ → RaftNode B S E R → Outcome (NodeError E) (Returned R) × RaftNode B S E R
  verify index sum sender n =
      if sender == n.id
      then (ok nothing, record n { last_checksum = record n.last_checksum { need_verify = false } })
      else if n.last_checksum.index == 0
      then (ok nothing, n)
      else if not (n.last_checksum.index == index)
      then (ok nothing, n)
      else if n.last_checksum.checksum ==ₛ sum
      then (ok nothing, n)
      else (panic, crash checksum_mismatch n)

module _ {C D B S E R : Type 0} (meta : MetaStore C D B S E R) (codec : Codec D B) (clock : ℕ → ℕ)
    (salt : String) where
  -- What is given to the proposer of a command.
  unfoldable pub hand_over : Bool → Outcome E R → Outcome (NodeError E) (Returned R)
  hand_over wanted (err e) = err (store_error e)
  hand_over wanted panic = panic
  hand_over false (ok r) = ok nothing
  hand_over true (ok r) = elim (meta.handed r) [
    | ok none ↦ ok nothing
    | ok (some v) ↦ ok (result v)
    | err e ↦ err (store_error e)
    | panic ↦ panic
  ]

  -- SnapShot: a failed encoding ends the process.
  unfoldable pub take_snapshot :
      ℕ → RaftNode B S E R → Outcome (NodeError E) (Returned R) × RaftNode B S E R
  take_snapshot index n = elim (meta.marshal_binary salt n.store) [
    | none ↦ (panic, n)
    | some md ↦ elim (codec.encode (record { data_ = md; peers_addr = n.peers })) [
      | none ↦ (panic, n)
      | some b ↦ (ok nothing, record n { saved = some (record { index = index; data_ = b }) })
    ]
  ]

  unfoldable pub apply_message :
      Bool
      → ℕ
      → Message C
      → RaftNode B S E R
      → Outcome (NodeError E) (Returned R) × RaftNode B S E R
  apply_message wanted index (command c) n =
      let (o, s) = meta.execute clock salt c n.store in (hand_over wanted o, record n { store = s })
  apply_message wanted index (acquire_lease name node t) n =
      let reply = acquire name node (time_or t (clock 0 / 1000000)) (clock 0) n.leases in
      (lease_result wanted reply, record n { leases = reply.2 })
  apply_message wanted index snapshot n = take_snapshot index n
  apply_message wanted index create_checksum n = (
    ok nothing,
    record n {
      last_checksum = record {
        need_verify = true;
        index = index;
        checksum = codec.digest salt (meta.get_data n.store);
      };
    },
  )
  apply_message wanted index (verify_checksum i sum sender) n = verify i sum sender n
  apply_message wanted index unknown n = (err unknown_message, n)

  unfoldable pub apply_committed :
      String
      → ℕ
      → Message C
      → RaftNode B S E R
      → Outcome (NodeError E) (Returned R) × RaftNode B S E R
  apply_committed key index m n =
      apply_message (wants (pctx key n.props)) index m
        (record n { props = set_index key index n.props })

  -- A panic ends the process, unless a failed assertion has.
  unfoldable pub finish :
      String → ℕ → Outcome (NodeError E) (Returned R) × RaftNode B S E R → RaftNode B S E R
  finish key index (ok v, n) = set_applied_index index (done key (ok v) n)
  finish key index (err e, n) = set_applied_index index (done key (err e) n)
  finish key index (panic, n) = elim n.crashed [ some why ↦ n | none ↦ crash panicked n ]

  unfoldable pub apply_payload : ℕ → Payload C → RaftNode B S E R → RaftNode B S E R
  apply_payload index (conf_change cc) n =
      set_applied_index index (record n { peers = apply_conf_change cc n.peers })
  apply_payload index empty n = set_applied_index index n
  apply_payload index malformed n = crash malformed_entry n
  apply_payload index (proposal key m) n = finish key index (apply_committed key index m n)

  -- processApplyCh, for one entry.
  unfoldable pub process_entry : Entry C → RaftNode B S E R → RaftNode B S E R
  process_entry e n =
      if leb e.index n.applied_index
      then n
      else if e.index == suc n.applied_index
      then apply_payload e.index e.payload n
      else crash gap n

module _ {C D B S E R : Type 0} (meta : MetaStore C D B S E R) (codec : Codec D B) where
  -- restoreFromSnapshot, behind the decoding.
  unfoldable pub restore_decoded : Option (SnapshotData B) → ℕ → RaftNode B S E R → RaftNode B S E R
  restore_decoded none index n = crash malformed_snapshot (record n { applied_index = index })
  restore_decoded (some data_) index n = record n {
    applied_index = index;
    peers = data_.peers_addr;
    store = meta.replace_data (meta.unmarshal_binary data_.data_) n.store;
  }

  unfoldable pub restore : Option (Snapshot B) → RaftNode B S E R → RaftNode B S E R
  restore none n = n
  restore (some sp) n = restore_decoded (codec.decode sp.data_) sp.index n

  unfoldable pub past_life : Option (Snapshot B) → ℕ
  past_life none = 0
  past_life (some sp) = sp.index

  -- NewRaftNode and InitAndStartNode, with what the storage has kept: a new store, and no leases.
  unfoldable pub start_from :
      Option (Snapshot B) → ℕ → S → ClusterLeases → List (ℕ × String) → RaftNode B S E R
  start_from saved id s leases peers = restore saved (record {
    id = id;
    applied_index = past_life saved;
    store = s;
    leases = leases;
    last_checksum = record { need_verify = false; index = 0; checksum = "" };
    props = [];
    answers = [];
    peers = peers;
    saved = saved;
    crashed = none;
  })

  unfoldable pub restart :
      S → ClusterLeases → List (ℕ × String) → RaftNode B S E R → RaftNode B S E R
  restart s leases peers n = start_from n.saved n.id s leases peers

-- What happens to a node: an entry of the log is delivered to it, a snapshot is received, and
-- restored later; it is started again; a proposal is made, and left.
pub data Event (C B S : Type 0) : Type 0 where
  deliver : Entry C → (ℕ → ℕ) → String → Event C B S
  receive_snapshot : Snapshot B → Event C B S
  restore_saved : Event C B S
  reboot : S → ClusterLeases → List (ℕ × String) → Event C B S
  propose : String → Bool → Event C B S
  give_up : String → Event C B S

module _ {C D B S E R : Type 0} (meta : MetaStore C D B S E R) (codec : Codec D B) where
  unfoldable pub handle : Event C B S → RaftNode B S E R → RaftNode B S E R
  handle (deliver e clock salt) n = process_entry meta codec clock salt e n
  handle (receive_snapshot sp) n = record n { saved = some sp }
  handle restore_saved n = restore meta codec n.saved n
  handle (reboot s leases peers) n = restart meta codec s leases peers n
  handle (propose key ret_data) n = store_proposal key ret_data n
  handle (give_up key) n = delete_proposal key n

  -- A process that has ended can only be started again.
  unfoldable pub handle_or_not : Option Crash → Event C B S → RaftNode B S E R → RaftNode B S E R
  handle_or_not none e n = handle e n
  handle_or_not (some why) (reboot s leases peers) n = restart meta codec s leases peers n
  handle_or_not (some why) (deliver e clock salt) n = n
  handle_or_not (some why) (receive_snapshot sp) n = n
  handle_or_not (some why) restore_saved n = n
  handle_or_not (some why) (propose key ret_data) n = n
  handle_or_not (some why) (give_up key) n = n

  unfoldable pub run : List (Event C B S) → RaftNode B S E R → RaftNode B S E R
  run [] n = n
  run (e ∷ es) n = run es (handle_or_not n.crashed e n)
