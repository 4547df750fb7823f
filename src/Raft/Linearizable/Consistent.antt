-- ===== src/Raft/Linearizable/Consistent.antt =====
-- The requests and the notifiers of the rounds of ReadLoop are told apart.
use mathlib.Core.Path.{subst}
use chronus.Base.{
  ℕ, zero, suc, ◌+◌, ◌%◌, ◌^◌, ◌≤◌, ◌<◌, ◌≡◌, refl, Bool, true, false, List, [], ◌∷◌, ◌++◌, Option,
  none, some, get_elem?, ◌==◌, leb, arith, All, All-append, All-impl, Bool-cases, inl, inr,
}
use chronus.Raft.Linearizable.{
  Log, Replica, Loop, idle, stopped, asking, waiting, applying, System, new_linearizabler, Accepted,
  accepted, refused, raft_stopped, Event, signal, take, receive, lose, reach, stop, read_index,
  answer, abort, commits, advances, is_notified, notify, take_token, ask, ask_raft, answer_to,
  lose_first, receive_state, abort_wait, reach_index, stop_loop, node_step, step,
}

-- The requests or notifiers of the list are older than the number.
abbrev pub Older : {A : Type 0} → ℕ → List (ℕ × A) → Type 0
Older n xs = All (λ x. x.0 < n) xs

pub Older-later : {A : Type 0} (m n : ℕ) (xs : List (ℕ × A)) → m ≤ n → Older m xs → Older n xs
Older-later m n xs h = All-impl xs (λ x old. omega (arith, old, h))

pub Older-get_elem? :
    (n i : ℕ) (xs : List (ℕ × ℕ)) (x : ℕ × ℕ) → get_elem? xs i ≡ some x → Older n xs → x.0 < n
Older-get_elem? n i [] x h old = cc
Older-get_elem? n zero (y ∷ xs) x h old = let e : y ≡ x = cc (h) in rw (← e) old.0
Older-get_elem? n (suc i) (y ∷ xs) x h old = Older-get_elem? n i xs x h old.1

is_notified-Older :
    {E : Type 0} → (nr : ℕ) (xs : List (ℕ × Option E)) → Older nr xs → is_notified nr xs ≡ false
unfolding is_notified
is_notified-Older nr [] old = refl
is_notified-Older nr (x ∷ xs) old = ground (arith, is_notified-Older nr xs old.1, old.0)

module _ {E D : Type 0} where
  -- What holds of the round that the loop is in: its notifier is the last one, and not notified.
  abbrev pub Holds : System E D → Loop → Type 0
  Holds s idle = Unit
  Holds s stopped = Unit
  Holds s (asking nr q) =
      (nr + 1 ≡ s.current)
      × (q ≡ s.current)
      × Older q s.asked
      × Older q s.read_states
      × Older nr s.notified
  Holds s (waiting nr q) = (nr + 1 ≡ s.current) × (q ≡ s.current) × Older nr s.notified
  Holds s (applying nr i) = (nr + 1 ≡ s.current) × Older nr s.notified

  pub record IsConsistent (s : System E D) : Type 0 where
    pub numbered : s.seq ≡ (s.current + 1) % 2 ^ 64
    pub asked_old : Older (s.current + 1) s.asked
    pub states_old : Older (s.current + 1) s.read_states
    pub notified_old : Older s.current s.notified
    pub round : Holds s s.loop
    pub sound : s.panicked ≡ false

  -- The round ends, and its notifier is told.
  notify-IsConsistent :
      (nr : ℕ) (e : Option E) (s : System E D)
      → IsConsistent s
      → nr + 1 ≡ s.current
      → Older nr s.notified
      → IsConsistent (notify nr e (record s { loop = idle }))
  unfolding notify
  notify-IsConsistent nr e s ok last old = record {
    numbered = ok.numbered;
    asked_old = ok.asked_old;
    states_old = ok.states_old;
    notified_old = (omega (arith, last), ok.notified_old);
    round = tt;
    sound = rw (ok.sound, is_notified-Older nr s.notified old) refl;
  }

  with_stopped : (s : System E D) → IsConsistent s → IsConsistent (record s { loop = stopped })
  with_stopped s ok = record {
    numbered = ok.numbered;
    asked_old = ok.asked_old;
    states_old = ok.states_old;
    notified_old = ok.notified_old;
    round = tt;
    sound = ok.sound;
  }

  -- The indexes, the metadata and the token do not matter.
  moved :
      (s : System E D) (commit : ℕ) (node : Replica D) (token : Bool)
      → IsConsistent s
      → IsConsistent (record s { commit = commit; node = node; token = token })
  moved s commit node token ok = record {
    numbered = ok.numbered;
    asked_old = ok.asked_old;
    states_old = ok.states_old;
    notified_old = ok.notified_old;
    round = holds s.loop ok.round;
    sound = ok.sound;
  }
    where
      holds :
          (l : Loop)
          → Holds s l
          → Holds (record s { commit = commit; node = node; token = token }) l
      holds idle h = h
      holds stopped h = h
      holds (asking nr q) h = h
      holds (waiting nr q) h = h
      holds (applying nr i) h = h

  take_token-IsConsistent :
      (l : Loop) (b : Bool) (s : System E D)
      → IsConsistent s
      → (take_token l b s).current < 2 ^ 64
      → IsConsistent (take_token l b s)
  unfolding take_token
  take_token-IsConsistent idle false s ok few = ok
  take_token-IsConsistent stopped b s ok few = ok
  take_token-IsConsistent (asking nr q) b s ok few = ok
  take_token-IsConsistent (waiting nr q) b s ok few = ok
  take_token-IsConsistent (applying nr i) b s ok few = ok
  take_token-IsConsistent idle true s ok few =
      let next : s.seq ≡ s.current + 1 = omega (arith, ok.numbered, few) in
      record {
        numbered = omega (arith, next, few);
        asked_old =
            Older-later (s.current + 1) (s.current + 1 + 1) s.asked (omega arith) ok.asked_old;
        states_old =
            Older-later (s.current + 1) (s.current + 1 + 1) s.read_states (omega arith)
              ok.states_old;
        notified_old =
            Older-later s.current (s.current + 1) s.notified (omega arith) ok.notified_old;
        round = (
          refl,
          next,
          Older-later (s.current + 1) s.seq s.asked (omega (arith, next)) ok.asked_old,
          Older-later (s.current + 1) s.seq s.read_states (omega (arith, next)) ok.states_old,
          ok.notified_old,
        );
        sound = ok.sound;
      }

  ask_raft-IsConsistent :
      (l : Loop) (a : Accepted E) (s : System E D)
      → IsConsistent s
      → Holds s l
      → IsConsistent (ask_raft l a s)
  unfolding ask_raft ask
  ask_raft-IsConsistent idle a s ok holds = ok
  ask_raft-IsConsistent stopped a s ok holds = ok
  ask_raft-IsConsistent (waiting nr q) a s ok holds = ok
  ask_raft-IsConsistent (applying nr i) a s ok holds = ok
  ask_raft-IsConsistent (asking nr q) (refused e) s ok (last, own, asked, states, old) =
      notify-IsConsistent nr (some e) s ok last old
  ask_raft-IsConsistent (asking nr q) raft_stopped s ok holds = with_stopped s ok
  ask_raft-IsConsistent (asking nr q) accepted s ok (last, own, asked, states, old) = record {
    numbered = ok.numbered;
    asked_old = (omega (arith, own), ok.asked_old);
    states_old = ok.states_old;
    notified_old = ok.notified_old;
    round = (last, own, old);
    sound = ok.sound;
  }

  -- The read states do not matter where the loop is not about to ask.
  receive_state-IsConsistent :
      (l : Loop) (states : List (ℕ × ℕ)) (s : System E D)
      → IsConsistent s
      → Holds s l
      → Older (s.current + 1) states
      → IsConsistent (receive_state l states s)
  unfolding receive_state
  receive_state-IsConsistent idle states s ok holds old = ok
  receive_state-IsConsistent stopped states s ok holds old = ok
  receive_state-IsConsistent (asking nr q) states s ok holds old = ok
  receive_state-IsConsistent (applying nr i) states s ok holds old = ok
  receive_state-IsConsistent (waiting nr q) [] s ok holds old = ok
  receive_state-IsConsistent (waiting nr q) ((ctx, i) ∷ rest) s ok (last, own, told) old =
      elim (Bool-cases (ctx == q)) [
        | inl same ↦ rw same (record {
          numbered = ok.numbered;
          asked_old = ok.asked_old;
          states_old = old.1;
          notified_old = ok.notified_old;
          round = (last, told);
          sound = ok.sound;
        })
        | inr other ↦ rw other (record {
          numbered = ok.numbered;
          asked_old = ok.asked_old;
          states_old = old.1;
          notified_old = ok.notified_old;
          round = (last, own, told);
          sound = ok.sound;
        })
      ]

  answer_to-IsConsistent :
      (o : Option (ℕ × ℕ)) (i more : ℕ) (s : System E D)
      → get_elem? s.asked i ≡ o
      → IsConsistent s
      → IsConsistent (answer_to o more s)
  unfolding answer_to
  answer_to-IsConsistent none i more s found ok = ok
  answer_to-IsConsistent (some (q, c)) i more s found ok = record {
    numbered = ok.numbered;
    asked_old = ok.asked_old;
    states_old =
        All-append _ s.read_states ((q, c + more) ∷ []) ok.states_old
          (Older-get_elem? (s.current + 1) i s.asked (q, c) found ok.asked_old, tt);
    notified_old = ok.notified_old;
    round = holds s.loop ok.round;
    sound = ok.sound;
  }
    where
      holds :
          (l : Loop)
          → Holds s l
          → Holds (record s { read_states = s.read_states ++ (q, c + more) ∷ [] }) l
      holds idle h = tt
      holds stopped h = tt
      holds (waiting nr q') h = h
      holds (applying nr j) h = h
      holds (asking nr q') (last, own, asked, states, old) = (
        last,
        own,
        asked,
        All-append _ s.read_states ((q, c + more) ∷ []) states
            (Older-get_elem? q' i s.asked (q, c) found asked, tt),
        old,
      )

  lose_first-IsConsistent :
      (states : List (ℕ × ℕ)) (s : System E D)
      → s.read_states ≡ states
      → IsConsistent s
      → IsConsistent (lose_first states s)
  unfolding lose_first
  lose_first-IsConsistent [] s same ok = ok
  lose_first-IsConsistent (x ∷ xs) s same ok = record {
    numbered = ok.numbered;
    asked_old = ok.asked_old;
    states_old = (subst (Older (s.current + 1)) same ok.states_old).1;
    notified_old = ok.notified_old;
    round = holds s.loop ok.round;
    sound = ok.sound;
  }
    where
      holds : (l : Loop) → Holds s l → Holds (record s { read_states = xs }) l
      holds idle h = tt
      holds stopped h = tt
      holds (waiting nr q) h = h
      holds (applying nr j) h = h
      holds (asking nr q) (last, own, asked, states, old) =
          (last, own, asked, (subst (Older q) same states).1, old)

  abort_wait-IsConsistent :
      (l : Loop) (e : E) (s : System E D)
      → IsConsistent s
      → Holds s l
      → IsConsistent (abort_wait l e s)
  unfolding abort_wait
  abort_wait-IsConsistent idle e s ok holds = ok
  abort_wait-IsConsistent stopped e s ok holds = ok
  abort_wait-IsConsistent (asking nr q) e s ok holds = ok
  abort_wait-IsConsistent (applying nr i) e s ok holds = ok
  abort_wait-IsConsistent (waiting nr q) e s ok (last, own, old) =
      notify-IsConsistent nr (some e) s ok last old

  reach_index-IsConsistent :
      (l : Loop) (s : System E D) → IsConsistent s → Holds s l → IsConsistent (reach_index l s)
  unfolding reach_index
  reach_index-IsConsistent idle s ok holds = ok
  reach_index-IsConsistent stopped s ok holds = ok
  reach_index-IsConsistent (asking nr q) s ok holds = ok
  reach_index-IsConsistent (waiting nr q) s ok holds = ok
  reach_index-IsConsistent (applying nr i) s ok (last, old) =
      elim (Bool-cases (leb i s.node.applied)) [
        | inl done ↦ rw done (notify-IsConsistent nr none s ok last old)
        | inr more ↦ rw more ok
      ]

  stop_loop-IsConsistent :
      (l : Loop) (s : System E D) → IsConsistent s → IsConsistent (stop_loop l s)
  unfolding stop_loop
  stop_loop-IsConsistent (asking nr q) s ok = ok
  stop_loop-IsConsistent idle s ok = with_stopped s ok
  stop_loop-IsConsistent stopped s ok = ok
  stop_loop-IsConsistent (waiting nr q) s ok = with_stopped s ok
  stop_loop-IsConsistent (applying nr i) s ok = with_stopped s ok

module _ {E D : Type 0} (log : Log D) where
  -- Every step keeps the system consistent, while the requests can be told apart.
  pub step-IsConsistent :
      (e : Event E) (s : System E D)
      → (step log e s).current < 2 ^ 64
      → IsConsistent s
      → IsConsistent (step log e s)
  unfolding step
  step-IsConsistent signal s few ok = moved s s.commit s.node true ok
  step-IsConsistent take s few ok = take_token-IsConsistent s.loop s.token s ok few
  step-IsConsistent (read_index a) s few ok = ask_raft-IsConsistent s.loop a s ok ok.round
  step-IsConsistent (answer k more) s few ok =
      answer_to-IsConsistent (get_elem? s.asked k) k more s refl ok
  step-IsConsistent lose s few ok = lose_first-IsConsistent s.read_states s refl ok
  step-IsConsistent receive s few ok =
      receive_state-IsConsistent s.loop s.read_states s ok ok.round ok.states_old
  step-IsConsistent (abort e) s few ok = abort_wait-IsConsistent s.loop e s ok ok.round
  step-IsConsistent reach s few ok = reach_index-IsConsistent s.loop s ok ok.round
  step-IsConsistent stop s few ok = stop_loop-IsConsistent s.loop s ok
  step-IsConsistent (commits n) s few ok = moved s (s.commit + n) s.node s.token ok
  step-IsConsistent (advances a) s few ok =
      moved s s.commit (node_step log a s.node.phase s.node) s.token ok

  pub new_linearizabler-IsConsistent :
      (commit applied : ℕ) → IsConsistent (new_linearizabler {E = E} log commit applied)
  unfolding new_linearizabler
  new_linearizabler-IsConsistent commit applied = record {
    numbered = omega arith;
    asked_old = tt;
    states_old = tt;
    notified_old = tt;
    round = tt;
    sound = refl;
  }
