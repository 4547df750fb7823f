-- ===== src/Raft/Linearizable/Tests.antt =====
-- A read of a small run and instances of the theorems on reads.
use chronus.Base.{ℕ, ◌≡◌, refl, [], ◌∷◌, ◌++◌, List, none, some, false, arith}
use chronus.Raft.Linearizable.{
  Log, System, after_entries, execute, set_index, restore_index, restore_data, node_step,
  new_linearizabler, Event, signal, take, receive, reach, read_index, answer, commits, advances,
  accepted, notify, is_notified, take_token, ask, ask_raft, answer_to, receive_state, reach_index,
  step, run, read_result,
}
use chronus.Raft.Linearizable.InStep.{is_restoring, IsFresh}
use chronus.Raft.Linearizable.Reads.{read_result-IsFresh, run_sound}

-- Each entry puts its index in front.
abbrev log : Log (List ℕ)
log = record { start = []; effect = λ i d. i ∷ d }

-- Entries up to 8 are committed; a read takes its notifier, and is let through.
abbrev before : List (Event ℕ)
before = commits 3 ∷ []

abbrev asks : List (Event ℕ)
asks = signal ∷ take ∷ read_index accepted ∷ answer 0 0 ∷ receive ∷ reach ∷ commits 1 ∷ []

-- A snapshot of the first 7 entries is restored, and the next entry applied.
abbrev after : List (Event ℕ)
after =
    asks
    ++ advances (restore_index 7)
      ∷ advances restore_data
      ∷ advances execute
      ∷ reach
      ∷ advances set_index
      ∷ reach
      ∷ []

read_result-IsFresh_example :
    IsFresh log
      (run log before (new_linearizabler {E = ℕ} log 5 0)).commit
      (run log after (run log before (new_linearizabler log 5 0))).node
unfolding new_linearizabler run step take_token ask_raft ask answer_to receive_state reach_index
    notify is_notified read_result node_step after_entries is_restoring
read_result-IsFresh_example = read_result-IsFresh log 5 0 before after (omega arith) refl refl

-- The same read where the index of a snapshot of 9 entries is set, and its data is not restored: it
-- is let through, and the metadata is that before any entry.
abbrev in_restore : System ℕ (List ℕ)
in_restore =
    run log (asks ++ advances (restore_index 9) ∷ reach ∷ [])
      (run log before (new_linearizabler log 5 0))

read_in_restore_test :
    (read_result 0 in_restore.notified ≡ some none) × (in_restore.node.metadata ≡ [])
unfolding new_linearizabler run step take_token ask_raft ask answer_to receive_state reach_index
    notify is_notified read_result node_step after_entries
read_in_restore_test = (refl, refl)

run_sound_example : (run log (before ++ after) (new_linearizabler {E = ℕ} log 5 0)).panicked ≡ false
unfolding new_linearizabler run step take_token ask_raft ask answer_to receive_state reach_index
    notify is_notified node_step after_entries
run_sound_example = run_sound log 5 0 (before ++ after) (omega arith)
