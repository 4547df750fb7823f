-- ===== src/Raft/Linearizable/Stays.antt =====
-- The steps of the loop, of the readers and of raft leave the node as it is.
use chronus.Base.{
  ℕ, ◌≡◌, refl, sym, Bool, true, false, List, [], ◌∷◌, Option, none, some, get_elem?, leb,
  Bool-cases, inl, inr,
}
use mathlib.Core.Path.{subst}
use chronus.Raft.Linearizable.{
  Log, Loop, idle, stopped, asking, waiting, applying, System, Accepted, accepted, refused,
  raft_stopped, Event, signal, take, receive, lose, reach, stop, read_index, answer, abort, commits,
  advances, notify, take_token, ask, ask_raft, answer_to, lose_first, receive_state, abort_wait,
  reach_index, stop_loop, step,
}
use chronus.Raft.Linearizable.InStep.{InStep, node_step-InStep}

module _ {E D : Type 0} (s : System E D) where
  node-take_token : (l : Loop) (b : Bool) → (take_token l b s).node ≡ s.node
  unfolding take_token
  node-take_token idle true = refl
  node-take_token idle false = refl
  node-take_token stopped b = refl
  node-take_token (asking nr q) b = refl
  node-take_token (waiting nr q) b = refl
  node-take_token (applying nr i) b = refl

  node-ask_raft : (l : Loop) (a : Accepted E) → (ask_raft l a s).node ≡ s.node
  unfolding ask_raft ask notify
  node-ask_raft (asking nr q) accepted = refl
  node-ask_raft (asking nr q) (refused e) = refl
  node-ask_raft (asking nr q) raft_stopped = refl
  node-ask_raft idle a = refl
  node-ask_raft stopped a = refl
  node-ask_raft (waiting nr q) a = refl
  node-ask_raft (applying nr i) a = refl

  node-answer_to : (o : Option (ℕ × ℕ)) (more : ℕ) → (answer_to o more s).node ≡ s.node
  unfolding answer_to
  node-answer_to none more = refl
  node-answer_to (some x) more = refl

  node-lose_first : (xs : List (ℕ × ℕ)) → (lose_first xs s).node ≡ s.node
  unfolding lose_first
  node-lose_first [] = refl
  node-lose_first (x ∷ xs) = refl

  node-receive_state : (l : Loop) (xs : List (ℕ × ℕ)) → (receive_state l xs s).node ≡ s.node
  unfolding receive_state
  node-receive_state (waiting nr q) [] = refl
  node-receive_state (waiting nr q) (x ∷ xs) = refl
  node-receive_state idle xs = refl
  node-receive_state stopped xs = refl
  node-receive_state (asking nr q) xs = refl
  node-receive_state (applying nr i) xs = refl

  node-abort_wait : (l : Loop) (e : E) → (abort_wait l e s).node ≡ s.node
  unfolding abort_wait notify
  node-abort_wait idle e = refl
  node-abort_wait stopped e = refl
  node-abort_wait (asking nr q) e = refl
  node-abort_wait (waiting nr q) e = refl
  node-abort_wait (applying nr i) e = refl

  node-reach_index : (l : Loop) → (reach_index l s).node ≡ s.node
  unfolding reach_index notify
  node-reach_index idle = refl
  node-reach_index stopped = refl
  node-reach_index (asking nr q) = refl
  node-reach_index (waiting nr q) = refl
  node-reach_index (applying nr i) = elim (Bool-cases (leb i s.node.applied)) [
    | inl b ↦ rw b refl
    | inr b ↦ rw b refl
  ]

  node-stop_loop : (l : Loop) → (stop_loop l s).node ≡ s.node
  unfolding stop_loop
  node-stop_loop idle = refl
  node-stop_loop stopped = refl
  node-stop_loop (asking nr q) = refl
  node-stop_loop (waiting nr q) = refl
  node-stop_loop (applying nr i) = refl

-- Each step of the system keeps the node's metadata in step with its index.
module _ {E D : Type 0} (log : Log D) where
  left :
      (s s' : System E D)
      → s'.node ≡ s.node
      → InStep log s.node s.node.phase
      → InStep log s'.node s'.node.phase
  left s s' same = subst (λ r. InStep log r r.phase) (sym same)

  pub step-InStep :
      (e : Event E) (s : System E D)
      → InStep log s.node s.node.phase
      → InStep log (step log e s).node (step log e s).node.phase
  unfolding step
  step-InStep signal s h = h
  step-InStep take s h = left s (take_token s.loop s.token s) (node-take_token s s.loop s.token) h
  step-InStep (read_index a) s h = left s (ask_raft s.loop a s) (node-ask_raft s s.loop a) h
  step-InStep (answer k more) s h =
      left s (answer_to (get_elem? s.asked k) more s) (node-answer_to s (get_elem? s.asked k) more)
        h
  step-InStep lose s h = left s (lose_first s.read_states s) (node-lose_first s s.read_states) h
  step-InStep receive s h =
      left s (receive_state s.loop s.read_states s) (node-receive_state s s.loop s.read_states) h
  step-InStep (abort e) s h = left s (abort_wait s.loop e s) (node-abort_wait s s.loop e) h
  step-InStep reach s h = left s (reach_index s.loop s) (node-reach_index s s.loop) h
  step-InStep stop s h = left s (stop_loop s.loop s) (node-stop_loop s s.loop) h
  step-InStep (commits n) s h = h
  step-InStep (advances a) s h = node_step-InStep log a s.node.phase s.node refl h
