-- ===== src/Raft/Linearizable.antt =====
-- raftmeta/linearizable_read.go, raftmeta/util.go and raftmeta/node.go: Linearizabler, the reads
-- that wait until the node has applied what was committed when they began. ReadLoop, the readers,
-- raft and processApplyCh, which applies entries and restores snapshots, run side by side: an event
-- is one step of one of them, and one that cannot happen changes nothing. A notifier is numbered by
-- the rounds of the loop before it. Raft keeps with a ReadIndex request the commit index of that
-- time, and answers with an index that is not lower; answers may be late, repeated or lost. A
-- snapshot has an index that is not below the applied one, and decodes to what the log makes up to
-- it. The eight bytes of a request's context are its number.
pub mod InStep
pub mod Stays
pub mod Consistent
pub mod Fresh
pub mod Reads
mod Tests
use chronus.Base.{
  ℕ, zero, suc, ◌+◌, Bool, true, false, ◌||◌, List, [], ◌∷◌, ◌++◌, Option, none, some, get_elem?,
  ◌==◌, leb, if◌then◌else◌, incr64,
}

-- Where ReadLoop stands: before its select; behind it, with the round's notifier and request; behind a
-- ReadIndex that has succeeded; and with a read state, while the index is not applied.
pub data Loop : Type 0 where
  idle stopped : Loop
  asking waiting : ℕ → ℕ → Loop
  applying : ℕ → ℕ → Loop

-- What each entry of the log makes of the metadata.
pub record Log (D : Type 0) : Type 0 where
  pub start : D
  pub effect : ℕ → D → D

-- What the first entries of the log make of it.
unfoldable pub after_entries : {D : Type 0} → Log D → ℕ → D
after_entries log zero = log.start
after_entries log (suc i) = log.effect (suc i) (after_entries log i)

-- Where processApplyCh stands: between two entries or snapshots; behind an entry's execution, whose
-- index is not set; and behind a snapshot's index, whose data is not restored.
pub data Phase : Type 0 where
  ready executed restoring : Phase

-- The node: the index that AppliedIndex tells, and the metadata that a reader sees.
pub record Replica (D : Type 0) : Type 0 where
  pub applied : ℕ
  pub metadata : D
  pub phase : Phase

pub data NodeStep : Type 0 where
  execute set_index restore_data : NodeStep
  restore_index : ℕ → NodeStep

pub record System (E D : Type 0) : Type 0 where
  pub commit : ℕ
  pub node : Replica D
  pub current : ℕ
  pub token : Bool
  pub seq : ℕ
  pub loop : Loop
  pub asked : List (ℕ × ℕ)
  pub read_states : List (ℕ × ℕ)
  pub notified : List (ℕ × Option E)
  pub panicked : Bool

-- NewLinearizabler, on a node that has applied an index.
unfoldable pub new_linearizabler : {E D : Type 0} → Log D → ℕ → ℕ → System E D
new_linearizabler log commit applied = record {
  commit = commit;
  node = record { applied = applied; metadata = after_entries log applied; phase = ready };
  current = 0;
  token = false;
  seq = 1;
  loop = idle;
  asked = [];
  read_states = [];
  notified = [];
  panicked = false;
}

-- What ReadIndex returns.
pub data Accepted (E : Type 0) : Type 0 where
  accepted : Accepted E
  refused : E → Accepted E
  raft_stopped : Accepted E

pub data Event (E : Type 0) : Type 0 where
  signal take receive lose reach stop : Event E
  read_index : Accepted E → Event E
  answer : ℕ → ℕ → Event E
  abort : E → Event E
  commits : ℕ → Event E
  advances : NodeStep → Event E

-- A step of processApplyCh: the next entry is executed, and its index is set; or restoreFromSnapshot
-- sets the index of a snapshot, and then its data.
unfoldable pub node_step : {D : Type 0} → Log D → NodeStep → Phase → Replica D → Replica D
node_step log execute ready r = record r {
  metadata = log.effect (suc r.applied) r.metadata;
  phase = executed;
}
node_step log execute executed r = r
node_step log execute restoring r = r
node_step log set_index executed r = record r { applied = suc r.applied; phase = ready }
node_step log set_index ready r = r
node_step log set_index restoring r = r
node_step log (restore_index n) ready r = record r { applied = r.applied + n; phase = restoring }
node_step log (restore_index n) executed r = r
node_step log (restore_index n) restoring r = r
node_step log restore_data restoring r = record r {
  metadata = after_entries log r.applied;
  phase = ready;
}
node_step log restore_data ready r = r
node_step log restore_data executed r = r

module _ {E : Type 0} where
  unfoldable pub is_notified : ℕ → List (ℕ × Option E) → Bool
  is_notified nr [] = false
  is_notified nr (x ∷ xs) = x.0 == nr || is_notified nr xs

  -- ReadNotify: what a read that began with the notifier is told, none while it waits.
  unfoldable pub read_result : ℕ → List (ℕ × Option E) → Option (Option E)
  read_result nr [] = none
  read_result nr (x ∷ xs) = let rest = read_result nr xs in if x.0 == nr then some x.1 else rest

module _ {E D : Type 0} where
  -- A second close of the channel would panic.
  unfoldable pub notify : ℕ → Option E → System E D → System E D
  notify nr e s = record s {
    notified = (nr, e) ∷ s.notified;
    panicked = s.panicked || is_notified nr s.notified;
  }

  -- The select of a round, for a token, and the round's notifier and request.
  unfoldable pub take_token : Loop → Bool → System E D → System E D
  take_token idle true s = record s {
    token = false;
    loop = asking s.current s.seq;
    current = s.current + 1;
    seq = incr64 s.seq;
  }
  take_token idle false s = s
  take_token stopped b s = s
  take_token (asking nr q) b s = s
  take_token (waiting nr q) b s = s
  take_token (applying nr i) b s = s

  unfoldable pub ask : ℕ → ℕ → Accepted E → System E D → System E D
  ask nr q accepted s = record s { loop = waiting nr q; asked = (q, s.commit) ∷ s.asked }
  ask nr q (refused e) s = notify nr (some e) (record s { loop = idle })
  ask nr q raft_stopped s = record s { loop = stopped }

  unfoldable pub ask_raft : Loop → Accepted E → System E D → System E D
  ask_raft (asking nr q) a s = ask nr q a s
  ask_raft idle a s = s
  ask_raft stopped a s = s
  ask_raft (waiting nr q) a s = s
  ask_raft (applying nr i) a s = s

  -- Raft's answer to a request, with an index that is not lower.
  unfoldable pub answer_to : Option (ℕ × ℕ) → ℕ → System E D → System E D
  answer_to none more s = s
  answer_to (some (q, commit)) more s = record s {
    read_states = s.read_states ++ (q, commit + more) ∷ [];
  }

  unfoldable pub lose_first : List (ℕ × ℕ) → System E D → System E D
  lose_first [] s = s
  lose_first (x ∷ xs) s = record s { read_states = xs }

  -- A read state; one of another request is ignored.
  unfoldable pub receive_state : Loop → List (ℕ × ℕ) → System E D → System E D
  receive_state (waiting nr q) ((ctx, i) ∷ rest) s = record s {
    read_states = rest;
    loop = if ctx == q then applying nr i else waiting nr q;
  }
  receive_state (waiting nr q) [] s = s
  receive_state idle states s = s
  receive_state stopped states s = s
  receive_state (asking nr q) states s = s
  receive_state (applying nr i) states s = s

  -- The leader has changed, or no answer came in time.
  unfoldable pub abort_wait : Loop → E → System E D → System E D
  abort_wait (waiting nr q) e s = notify nr (some e) (record s { loop = idle })
  abort_wait idle e s = s
  abort_wait stopped e s = s
  abort_wait (asking nr q) e s = s
  abort_wait (applying nr i) e s = s

  -- The index of the read state is applied.
  unfoldable pub reach_index : Loop → System E D → System E D
  reach_index (applying nr i) s =
      if leb i s.node.applied then notify nr none (record s { loop = idle }) else s
  reach_index idle s = s
  reach_index stopped s = s
  reach_index (asking nr q) s = s
  reach_index (waiting nr q) s = s

  unfoldable pub stop_loop : Loop → System E D → System E D
  stop_loop (asking nr q) s = s
  stop_loop idle s = record s { loop = stopped }
  stop_loop stopped s = s
  stop_loop (waiting nr q) s = record s { loop = stopped }
  stop_loop (applying nr i) s = record s { loop = stopped }

module _ {E D : Type 0} (log : Log D) where
  unfoldable pub step : Event E → System E D → System E D
  step signal s = record s { token = true }
  step take s = take_token s.loop s.token s
  step (read_index a) s = ask_raft s.loop a s
  step (answer k more) s = answer_to (get_elem? s.asked k) more s
  step lose s = lose_first s.read_states s
  step receive s = receive_state s.loop s.read_states s
  step (abort e) s = abort_wait s.loop e s
  step reach s = reach_index s.loop s
  step stop s = stop_loop s.loop s
  step (commits n) s = record s { commit = s.commit + n }
  step (advances a) s = record s { node = node_step log a s.node.phase s.node }

  unfoldable pub run : List (Event E) → System E D → System E D
  run [] s = s
  run (e ∷ es) s = run es (step e s)
