-- ===== src/Raft/Node.antt =====
-- raftmeta/node.go and the rest of raftmeta/apply.go: RaftNode, which applies the entries of the
-- raft log to its copy of the metadata and answers the proposals made on it. An entry stands
-- decoded. The store is an interface, which Raft.Apply fills. The snapshot that the storage holds
-- is the last one saved. A failed assertion or a panic ends the process: the node then keeps the
-- reason and does nothing more.
pub mod Entries
pub mod Log
pub mod Applied
pub mod Replicated
pub mod Answered
mod Tests
use chronus.Base.{
  ℕ, suc, ◌+◌, Bool, true, false, not, ◌≡◌, List, [], ◌∷◌, ◌++◌, Option, none, some, String,
  Outcome, ok, err, panic, ◌==◌, ◌==ₛ◌, leb, if◌then◌else◌,
}
use chronus.Raft.Leases.{ClusterLeases, Lease, acquire, Error as LeaseError}

-- MetaStore, with what its methods do: the commands, what a command makes of the metadata where the
-- request has its times, the encoding of the metadata, which may walk maps in any order, and the
-- nodes' common settings. UnmarshalBinary, of `Data`, is called on a new one.
pub record MetaStore (C D B S E R : Type 0) : Type 1 where
  pub execute : (ℕ → ℕ) → String → C → S → Outcome E R × S
  pub get_data : S → D
  pub replace_data : D → S → S
  pub marshal_binary : String → S → Option B
  pub unmarshal_binary : B → D
  pub handed : R → Outcome E (Option R)
  pub effect : C → D → D
  pub Timed : C → Type 0
  pub IsConfigured : S → Type 0
  pub execute-effect :
      (clock : ℕ → ℕ) (salt : String) (c : C) (s : S)
      → Timed c
      → IsConfigured s
      → get_data (execute clock salt c s).1 ≡ effect c (get_data s)
  pub execute-IsConfigured :
      (clock : ℕ → ℕ) (salt : String) (c : C) (s : S)
      → Timed c
      → IsConfigured s
      → IsConfigured (execute clock salt c s).1
  pub get_data-replace_data : (d : D) (s : S) → get_data (replace_data d s) ≡ d
  pub unmarshal-marshal :
      (order : String) (s : S) (b : B)
      → marshal_binary order s ≡ some b
      → unmarshal_binary b ≡ get_data s
  pub replace_data-IsConfigured : (d : D) (s : S) → IsConfigured s → IsConfigured (replace_data d s)

pub data Message (C : Type 0) : Type 0 where
  command : C → Message C
  acquire_lease : String → ℕ → ℕ → Message C
  snapshot : Message C
  create_checksum : Message C
  verify_checksum : ℕ → String → ℕ → Message C
  unknown : Message C

-- A change of the members: a removal, or the address of a node.
pub data ConfChange : Type 0 where
  remove_node : ℕ → ConfChange
  set_node : ℕ → String → ConfChange
  no_context : ConfChange

pub data Payload (C : Type 0) : Type 0 where
  conf_change : ConfChange → Payload C
  empty : Payload C
  malformed : Payload C
  proposal : String → Message C → Payload C

pub record Entry (C : Type 0) : Type 0 where
  pub index : ℕ
  pub payload : Payload C

-- A snapshot of raft, and what its data encode.
pub record Snapshot (B : Type 0) : Type 0 where
  pub index : ℕ
  pub data_ : B

pub record SnapshotData (B : Type 0) : Type 0 where
  pub data_ : B
  pub peers_addr : List (ℕ × String)

-- encoding/json on a SnapshotData, which gives back what it was given; and the hash of the encoded
-- metadata behind CreateChecksumMsg's levelling of the times of deletion and truncation, for an
-- order in which maps are walked.
pub record Codec (D B : Type 0) : Type 0 where
  pub encode : SnapshotData B → Option B
  pub decode : B → Option (SnapshotData B)
  pub decode-encode :
      (data_ : SnapshotData B) (b : B) → encode data_ ≡ some b → decode b ≡ some data_
  pub digest : String → D → String

pub record Checksum : Type 0 where
  pub need_verify : Bool
  pub index : ℕ
  pub checksum : String

-- Does the proposer want the result, and the index of the entry once it is applied.
pub record ProposalCtx : Type 0 where
  pub ret_data : Bool
  pub index : ℕ

pub data NodeError (E : Type 0) : Type 0 where
  store_error : E → NodeError E
  lease_error : LeaseError → NodeError E
  unknown_message : NodeError E

pub data Returned (R : Type 0) : Type 0 where
  nothing : Returned R
  result : R → Returned R
  lease : Lease → Returned R

-- Why a process ended.
pub data Crash : Type 0 where
  gap malformed_entry malformed_snapshot panicked checksum_mismatch no_index key_taken : Crash

-- The answers are what the channels of the proposals were sent, the last one first.
pub record RaftNode (B S E R : Type 0) : Type 0 where
  pub id : ℕ
  pub applied_index : ℕ
  pub store : S
  pub leases : ClusterLeases
  pub last_checksum : Checksum
  pub props : List (String × ProposalCtx)
  pub answers : List (String × Outcome (NodeError E) (Returned R))
  pub peers : List (ℕ × String)
  pub saved : Option (Snapshot B)
  pub crashed : Option Crash

-- proposals: Store, pctx and Delete.
unfoldable pub pctx : String → List (String × ProposalCtx) → Option ProposalCtx
pctx key [] = none
pctx key (x ∷ xs) = let rest = pctx key xs in if x.0 ==ₛ key then some x.1 else rest

unfoldable pub delete_key : String → List (String × ProposalCtx) → List (String × ProposalCtx)
delete_key key [] = []
delete_key key (x ∷ xs) = let rest = delete_key key xs in if x.0 ==ₛ key then rest else x ∷ rest

-- `pctx.index = index`, through the pointer.
unfoldable pub set_index : String → ℕ → List (String × ProposalCtx) → List (String × ProposalCtx)
set_index key index [] = []
set_index key index (x ∷ xs) =
    let rest = set_index key index xs in
    if x.0 ==ₛ key then (x.0, record x.1 { index = index }) ∷ rest else x ∷ rest

-- Transport's SetPeer and DeletePeer.
unfoldable pub delete_peer : ℕ → List (ℕ × String) → List (ℕ × String)
delete_peer id [] = []
delete_peer id (x ∷ xs) = let rest = delete_peer id xs in if x.0 == id then rest else x ∷ rest

unfoldable pub apply_conf_change : ConfChange → List (ℕ × String) → List (ℕ × String)
apply_conf_change (remove_node id) peers = delete_peer id peers
apply_conf_change (set_node id addr) peers = (id, addr) ∷ delete_peer id peers
apply_conf_change no_context peers = peers

unfoldable pub wants : Option ProposalCtx → Bool
wants none = false
wants (some p) = p.ret_data

module _ {B S E R : Type 0} where
  unfoldable pub crash : Crash → RaftNode B S E R → RaftNode B S E R
  crash why n = record n { crashed = some why }

  -- ProposeAndWait, up to the proposal.
  unfoldable pub store_proposal : String → Bool → RaftNode B S E R → RaftNode B S E R
  store_proposal key ret_data n = elim (pctx key n.props) [
    | some p ↦ crash key_taken n
    | none ↦ record n { props = (key, record { ret_data = ret_data; index = 0 }) ∷ n.props }
  ]

  -- The end of ProposeAndWait, answered or not.
  unfoldable pub delete_proposal : String → RaftNode B S E R → RaftNode B S E R
  delete_proposal key n = record n { props = delete_key key n.props }

  -- proposals.Done, for what stands under the key.
  unfoldable pub done_at :
      Option ProposalCtx
      → String
      → Outcome (NodeError E) (Returned R)
      → RaftNode B S E R
      → RaftNode B S E R
  done_at none key o n = n
  done_at (some p) key o n =
      if p.index == 0
      then crash no_index n
      else record n { props = delete_key key n.props; answers = (key, o) ∷ n.answers }

  unfoldable pub done :
      String → Outcome (NodeError E) (Returned R) → RaftNode B S E R → RaftNode B S E R
  done key o n = if key ==ₛ "" then n else done_at (pctx key n.props) key o n

  unfoldable pub set_applied_index : ℕ → RaftNode B S E R → RaftNode B S E R
  set_applied_index i n = record n { applied_index = i }
