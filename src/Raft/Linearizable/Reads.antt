-- ===== src/Raft/Linearizable/Reads.antt =====
-- What ReadNotify promises its callers, over all that ReadLoop, raft and the node may do.
use chronus.Base.{
  ℕ, ◌^◌, ◌≤◌, ◌<◌, ◌≡◌, refl, Bool, true, false, List, [], ◌∷◌, Option, none, some, get_elem?, leb,
  arith, All-impl, Bool-cases, inl, inr,
}
use chronus.Raft.Linearizable.{
  Log, Loop, idle, stopped, asking, waiting, applying, System, new_linearizabler, Accepted,
  accepted, refused, raft_stopped, Event, signal, take, receive, lose, reach, stop, read_index,
  answer, abort, commits, advances, notify, take_token, ask, ask_raft, answer_to, lose_first,
  receive_state, abort_wait, reach_index, stop_loop, step, run, read_result,
}
use chronus.Raft.Linearizable.Consistent.{
  Holds, IsConsistent, step-IsConsistent, new_linearizabler-IsConsistent,
}
use chronus.Raft.Linearizable.InStep.{IsSettled, IsFresh, InStep, InStep-current}
use chronus.Raft.Linearizable.Stays.{step-InStep}
use chronus.Raft.Linearizable.Fresh.{Ahead, Tracks, step-Tracks, read_result-Told}

module _ {E D : Type 0} (log : Log D) where
  -- Each step leaves the number of the notifier or makes it greater.
  step_grows : (e : Event E) (s : System E D) → s.current ≤ (step log e s).current
  unfolding step take_token ask_raft ask notify answer_to lose_first receive_state abort_wait
      reach_index stop_loop
  step_grows signal s = omega arith
  step_grows take s = take_token_grows s.loop s.token
    where
      take_token_grows : (l : Loop) (b : Bool) → s.current ≤ (take_token l b s).current
      take_token_grows idle true = omega arith
      take_token_grows idle false = omega arith
      take_token_grows stopped b = omega arith
      take_token_grows (asking nr q) b = omega arith
      take_token_grows (waiting nr q) b = omega arith
      take_token_grows (applying nr i) b = omega arith
  step_grows (read_index a) s = ask_raft_grows s.loop a
    where
      ask_raft_grows : (l : Loop) (a : Accepted E) → s.current ≤ (ask_raft l a s).current
      ask_raft_grows (asking nr q) accepted = omega arith
      ask_raft_grows (asking nr q) (refused e) = omega arith
      ask_raft_grows (asking nr q) raft_stopped = omega arith
      ask_raft_grows idle a = omega arith
      ask_raft_grows stopped a = omega arith
      ask_raft_grows (waiting nr q) a = omega arith
      ask_raft_grows (applying nr i) a = omega arith
  step_grows (answer k more) s = answer_to_grows (get_elem? s.asked k)
    where
      answer_to_grows : (o : Option (ℕ × ℕ)) → s.current ≤ (answer_to o more s).current
      answer_to_grows none = omega arith
      answer_to_grows (some x) = omega arith
  step_grows lose s = lose_first_grows s.read_states
    where
      lose_first_grows : (xs : List (ℕ × ℕ)) → s.current ≤ (lose_first xs s).current
      lose_first_grows [] = omega arith
      lose_first_grows (x ∷ xs) = omega arith
  step_grows receive s = receive_state_grows s.loop s.read_states
    where
      receive_state_grows :
          (l : Loop) (xs : List (ℕ × ℕ)) → s.current ≤ (receive_state l xs s).current
      receive_state_grows (waiting nr q) (x ∷ xs) = omega arith
      receive_state_grows (waiting nr q) [] = omega arith
      receive_state_grows idle xs = omega arith
      receive_state_grows stopped xs = omega arith
      receive_state_grows (asking nr q) xs = omega arith
      receive_state_grows (applying nr i) xs = omega arith
  step_grows (abort e) s = abort_wait_grows s.loop
    where
      abort_wait_grows : (l : Loop) → s.current ≤ (abort_wait l e s).current
      abort_wait_grows idle = omega arith
      abort_wait_grows stopped = omega arith
      abort_wait_grows (asking nr q) = omega arith
      abort_wait_grows (waiting nr q) = omega arith
      abort_wait_grows (applying nr i) = omega arith
  step_grows reach s = reach_index_grows s.loop
    where
      reach_index_grows : (l : Loop) → s.current ≤ (reach_index l s).current
      reach_index_grows idle = omega arith
      reach_index_grows stopped = omega arith
      reach_index_grows (asking nr q) = omega arith
      reach_index_grows (waiting nr q) = omega arith
      reach_index_grows (applying nr i) = elim (Bool-cases (leb i s.node.applied)) [
        | inl b ↦ rw b (omega arith)
        | inr b ↦ rw b (omega arith)
      ]
  step_grows stop s = stop_loop_grows s.loop
    where
      stop_loop_grows : (l : Loop) → s.current ≤ (stop_loop l s).current
      stop_loop_grows idle = omega arith
      stop_loop_grows stopped = omega arith
      stop_loop_grows (asking nr q) = omega arith
      stop_loop_grows (waiting nr q) = omega arith
      stop_loop_grows (applying nr i) = omega arith
  step_grows (commits n) s = omega arith
  step_grows (advances a) s = omega arith

  run_grows : (es : List (Event E)) (s : System E D) → s.current ≤ (run log es s).current
  unfolding run
  run_grows [] s = omega arith
  run_grows (e ∷ es) s = omega (arith, step_grows e s, run_grows es (step log e s))

  run-IsConsistent :
      (es : List (Event E)) (s : System E D)
      → (run log es s).current < 2 ^ 64
      → IsConsistent s
      → IsConsistent (run log es s)
  unfolding run
  run-IsConsistent [] s few ok = ok
  run-IsConsistent (e ∷ es) s few ok =
      run-IsConsistent es (step log e s) few
        (step-IsConsistent log e s (omega (arith, few, run_grows es (step log e s))) ok)

  run-Tracks :
      (g c : ℕ) (es : List (Event E)) (s : System E D)
      → (run log es s).current < 2 ^ 64
      → IsConsistent s
      → Tracks g c s
      → Tracks g c (run log es s)
  unfolding run
  run-Tracks g c [] s few ok t = t
  run-Tracks g c (e ∷ es) s few ok t =
      run-Tracks g c es (step log e s) few
        (step-IsConsistent log e s (omega (arith, few, run_grows es (step log e s))) ok)
        (step-Tracks log g c e s ok t)

  -- No round that has begun has the notifier that a read takes now.
  begin-Tracks : (s : System E D) → IsConsistent s → Tracks s.current s.commit s
  begin-Tracks s ok = record {
    early = omega arith;
    told =
        All-impl s.notified (λ x old same success. absurd (omega (arith, old, same)))
          ok.notified_old;
    round = not_yet s.loop ok.round;
  }
    where
      not_yet : (l : Loop) → Holds s l → Ahead s.current s.commit s l
      not_yet idle h = tt
      not_yet stopped h = tt
      not_yet (asking nr q) h = tt
      not_yet (waiting nr q) h = λ same. absurd (omega (arith, h.0, same))
      not_yet (applying nr i) h = λ same. absurd (omega (arith, h.0, same))

  run-InStep :
      (es : List (Event E)) (s : System E D)
      → InStep log s.node s.node.phase
      → InStep log (run log es s).node (run log es s).node.phase
  unfolding run
  run-InStep [] s h = h
  run-InStep (e ∷ es) s h = run-InStep es (step log e s) (step-InStep log e s h)

  read_result-applied :
      (commit applied : ℕ) (before after : List (Event E))
      → (run log after (run log before (new_linearizabler log commit applied))).current < 2 ^ 64
      → read_result
          (run log before (new_linearizabler log commit applied)).current
          (run log after (run log before (new_linearizabler log commit applied))).notified
        ≡ some none
      → (run log before (new_linearizabler {E = E} log commit applied)).commit
        ≤ (run log after (run log before (new_linearizabler log commit applied))).node.applied
  read_result-applied commit applied before after few success =
      let s = run log before (new_linearizabler {E = E} log commit applied) in
      let ok : IsConsistent s =
        run-IsConsistent before (new_linearizabler log commit applied)
          (omega (arith, few, run_grows after s))
          (new_linearizabler-IsConsistent log commit applied) in
      read_result-Told s.current s.commit _ _
        (run-Tracks s.current s.commit after s few ok (begin-Tracks s ok)).told success

  -- A read that ReadNotify lets through finds the metadata that the log's entries up to some index
  -- make, and all that was committed when the read took its notifier is among these entries,
  -- whatever the loop, the other readers, raft and the node did before and since. There were fewer
  -- than 2 ^ 64 rounds, and the node is not between the two steps of restoring a snapshot, where it
  -- has set the snapshot's index and not its data.
  pub read_result-IsFresh :
      (commit applied : ℕ) (before after : List (Event E))
      → (run log after (run log before (new_linearizabler log commit applied))).current < 2 ^ 64
      → IsSettled
          (run {E = E} log after (run log before (new_linearizabler log commit applied))).node
      → read_result
          (run log before (new_linearizabler log commit applied)).current
          (run log after (run log before (new_linearizabler log commit applied))).notified
        ≡ some none
      → IsFresh log
          (run log before (new_linearizabler {E = E} log commit applied)).commit
          (run {E = E} log after (run log before (new_linearizabler log commit applied))).node
  unfolding new_linearizabler
  read_result-IsFresh commit applied before after few calm success =
      let s = run log before (new_linearizabler {E = E} log commit applied) in
      let s' = run log after s in
      InStep-current log s'.node.phase s'.node s.commit
        (run-InStep after s (run-InStep before (new_linearizabler log commit applied) refl)) calm
        (read_result-applied commit applied before after few success)

  -- No notifier is notified twice, which would close its channel twice, if there are fewer than 2 ^
  -- 64 rounds.
  pub run_sound :
      (commit applied : ℕ) (es : List (Event E))
      → (run log es (new_linearizabler {E = E} log commit applied)).current < 2 ^ 64
      → (run log es (new_linearizabler log commit applied)).panicked ≡ false
  run_sound commit applied es few =
      (run-IsConsistent es (new_linearizabler log commit applied) few
        (new_linearizabler-IsConsistent log commit applied)).sound
