-- ===== src/Raft/Linearizable/Fresh.antt =====
-- A read that succeeds sees all that was committed when it began.
use mathlib.Core.Path.{subst}
use chronus.Base.{
  ℕ, zero, suc, ◌+◌, ◌≤◌, ◌≡◌, refl, Bool, true, false, List, [], ◌∷◌, ◌++◌, Option, none, some,
  get_elem?, ◌==◌, leb, arith, All, All-append, All-impl, Bool-cases, inl, inr,
}
use chronus.Raft.Linearizable.{
  Log, Replica, Loop, idle, stopped, asking, waiting, applying, System, Accepted, accepted, refused,
  raft_stopped, Event, signal, take, receive, lose, reach, stop, read_index, answer, abort, commits,
  advances, notify, take_token, ask, ask_raft, answer_to, lose_first, receive_state, abort_wait,
  reach_index, stop_loop, node_step, step, read_result,
}
use chronus.Raft.Linearizable.InStep.{node_step_grows}
use chronus.Raft.Linearizable.Consistent.{Older, Holds, IsConsistent}

-- The entries for the request have no index below `c`.
abbrev pub NotBefore : ℕ → ℕ → List (ℕ × ℕ) → Type 0
NotBefore c q xs = All (λ x. x.0 ≡ q → c ≤ x.1) xs

Older-NotBefore : (c q : ℕ) (xs : List (ℕ × ℕ)) → Older q xs → NotBefore c q xs
Older-NotBefore c q xs = All-impl xs (λ x old same. absurd (omega (arith, old, same)))

NotBefore-get_elem? :
    (c q i : ℕ) (xs : List (ℕ × ℕ)) (x : ℕ × ℕ)
    → get_elem? xs i ≡ some x
    → NotBefore c q xs
    → x.0 ≡ q
    → c ≤ x.1
NotBefore-get_elem? c q i [] x found all = cc
NotBefore-get_elem? c q zero (y ∷ xs) x found all =
    let e : y ≡ x = cc (found) in subst (λ z. z.0 ≡ q → c ≤ z.1) e all.0
NotBefore-get_elem? c q (suc i) (y ∷ xs) x found all = NotBefore-get_elem? c q i xs x found all.1

-- For a read that began with the notifier `g` when the commit index was `c`.
module _ {E : Type 0} (g c : ℕ) where
  abbrev pub Told : ℕ → List (ℕ × Option E) → Type 0
  Told applied xs = All (λ x. x.0 ≡ g → x.1 ≡ none → c ≤ applied) xs

  pub read_result-Told :
      (applied : ℕ) (xs : List (ℕ × Option E))
      → Told applied xs
      → read_result g xs ≡ some none
      → c ≤ applied
  unfolding read_result
  read_result-Told applied [] told success = cc
  read_result-Told applied (x ∷ xs) told success = elim (Bool-cases (x.0 == g)) [
    | inl same ↦ told.0 (ground (arith, same)) (cc (rw same at success))
    | inr other ↦ read_result-Told applied xs told.1 (rw other at success)
  ]

module _ {E D : Type 0} (g c : ℕ) where
  abbrev pub Ahead : System E D → Loop → Type 0
  Ahead s idle = Unit
  Ahead s stopped = Unit
  Ahead s (asking nr q) = Unit
  Ahead s (waiting nr q) = nr ≡ g → NotBefore c q s.asked × NotBefore c q s.read_states
  Ahead s (applying nr i) = nr ≡ g → c ≤ i

  pub record Tracks (s : System E D) : Type 0 where
    pub early : c ≤ s.commit
    pub told : Told g c s.node.applied s.notified
    pub round : Ahead s s.loop

  -- The notifier of the round is told an error, or that the index is applied.
  notify-Tracks :
      (nr : ℕ) (e : Option E) (s : System E D)
      → Tracks s
      → (nr ≡ g → e ≡ none → c ≤ s.node.applied)
      → Tracks (notify nr e (record s { loop = idle }))
  unfolding notify
  notify-Tracks nr e s t here = record { early = t.early; told = (here, t.told); round = tt }

  ask_raft-Tracks :
      (l : Loop) (a : Accepted E) (s : System E D) → Tracks s → Holds s l → Tracks (ask_raft l a s)
  unfolding ask_raft ask
  ask_raft-Tracks idle a s t holds = t
  ask_raft-Tracks stopped a s t holds = t
  ask_raft-Tracks (waiting nr q) a s t holds = t
  ask_raft-Tracks (applying nr i) a s t holds = t
  ask_raft-Tracks (asking nr q) (refused e) s t holds =
      notify-Tracks nr (some e) s t (λ same h. cc (h))
  ask_raft-Tracks (asking nr q) raft_stopped s t holds = record {
    early = t.early;
    told = t.told;
    round = tt;
  }
  ask_raft-Tracks (asking nr q) accepted s t (last, own, asked, states, old) = record {
    early = t.early;
    told = t.told;
    round = λ same. (
      (λ e. t.early, Older-NotBefore c q s.asked asked),
      Older-NotBefore c q s.read_states states,
    );
  }

  take_token-Tracks : (l : Loop) (b : Bool) (s : System E D) → Tracks s → Tracks (take_token l b s)
  unfolding take_token
  take_token-Tracks idle true s t = record { early = t.early; told = t.told; round = tt }
  take_token-Tracks idle false s t = t
  take_token-Tracks stopped b s t = t
  take_token-Tracks (asking nr q) b s t = t
  take_token-Tracks (waiting nr q) b s t = t
  take_token-Tracks (applying nr i) b s t = t

  -- The round is as far ahead with other read states, if these are.
  with_states :
      (l : Loop) (s : System E D) (states : List (ℕ × ℕ))
      → ((nr q : ℕ)
          → l ≡ waiting nr q
          → NotBefore c q s.asked
          → NotBefore c q s.read_states
          → NotBefore c q states)
      → Ahead s l
      → Ahead (record s { read_states = states }) l
  with_states idle s states keep h = tt
  with_states stopped s states keep h = tt
  with_states (asking nr q) s states keep h = tt
  with_states (applying nr i) s states keep h = h
  with_states (waiting nr q) s states keep h =
      λ same. ((h same).0, keep nr q refl (h same).0 (h same).1)

  answer_to-Tracks :
      (o : Option (ℕ × ℕ)) (i more : ℕ) (s : System E D)
      → get_elem? s.asked i ≡ o
      → Tracks s
      → Tracks (answer_to o more s)
  unfolding answer_to
  answer_to-Tracks none i more s found t = t
  answer_to-Tracks (some (q', c0)) i more s found t = record {
    early = t.early;
    told = t.told;
    round =
        with_states s.loop s (s.read_states ++ (q', c0 + more) ∷ [])
          (λ nr q e asked states. All-append _ s.read_states ((q', c0 + more) ∷ []) states (
            (λ own. omega (arith, NotBefore-get_elem? c q i s.asked (q', c0) found asked own)),
            tt,
          ))
          t.round;
  }

  lose_first-Tracks :
      (states : List (ℕ × ℕ)) (s : System E D)
      → s.read_states ≡ states
      → Tracks s
      → Tracks (lose_first states s)
  unfolding lose_first
  lose_first-Tracks [] s same t = t
  lose_first-Tracks (x ∷ xs) s same t = record {
    early = t.early;
    told = t.told;
    round =
        with_states s.loop s xs (λ nr q e asked states. (subst (NotBefore c q) same states).1)
          t.round;
  }

  receive_state-Tracks :
      (l : Loop) (states : List (ℕ × ℕ)) (s : System E D)
      → s.read_states ≡ states
      → Tracks s
      → Ahead s l
      → Tracks (receive_state l states s)
  unfolding receive_state
  receive_state-Tracks idle states s same t ahead = t
  receive_state-Tracks stopped states s same t ahead = t
  receive_state-Tracks (asking nr q) states s same t ahead = t
  receive_state-Tracks (applying nr i) states s same t ahead = t
  receive_state-Tracks (waiting nr q) [] s same t ahead = t
  receive_state-Tracks (waiting nr q) ((ctx, i) ∷ rest) s same t ahead =
      elim (Bool-cases (ctx == q)) [
        | inl own ↦ rw own (record {
          early = t.early;
          told = t.told;
          round = λ mine. (subst (NotBefore c q) same (ahead mine).1).0 (ground (arith, own));
        })
        | inr other ↦ rw other (record {
          early = t.early;
          told = t.told;
          round = λ mine. ((ahead mine).0, (subst (NotBefore c q) same (ahead mine).1).1);
        })
      ]

  abort_wait-Tracks : (l : Loop) (e : E) (s : System E D) → Tracks s → Tracks (abort_wait l e s)
  unfolding abort_wait
  abort_wait-Tracks idle e s t = t
  abort_wait-Tracks stopped e s t = t
  abort_wait-Tracks (asking nr q) e s t = t
  abort_wait-Tracks (applying nr i) e s t = t
  abort_wait-Tracks (waiting nr q) e s t = notify-Tracks nr (some e) s t (λ same h. cc (h))

  reach_index-Tracks : (l : Loop) (s : System E D) → Tracks s → Ahead s l → Tracks (reach_index l s)
  unfolding reach_index
  reach_index-Tracks idle s t ahead = t
  reach_index-Tracks stopped s t ahead = t
  reach_index-Tracks (asking nr q) s t ahead = t
  reach_index-Tracks (waiting nr q) s t ahead = t
  reach_index-Tracks (applying nr i) s t ahead = elim (Bool-cases (leb i s.node.applied)) [
    | inl done ↦
        rw done
          (notify-Tracks nr none s t (λ mine h. let a = ahead mine in ground (arith, done, a)))
    | inr more ↦ rw more t
  ]

  stop_loop-Tracks : (l : Loop) (s : System E D) → Tracks s → Tracks (stop_loop l s)
  unfolding stop_loop
  stop_loop-Tracks (asking nr q) s t = t
  stop_loop-Tracks idle s t = record { early = t.early; told = t.told; round = tt }
  stop_loop-Tracks stopped s t = t
  stop_loop-Tracks (waiting nr q) s t = record { early = t.early; told = t.told; round = tt }
  stop_loop-Tracks (applying nr i) s t = record { early = t.early; told = t.told; round = tt }

  same_round :
      (s : System E D) (commit : ℕ) (node : Replica D) (token : Bool) (l : Loop)
      → Ahead s l
      → Ahead (record s { commit = commit; node = node; token = token }) l
  same_round s commit node token idle h = h
  same_round s commit node token stopped h = h
  same_round s commit node token (asking nr q) h = h
  same_round s commit node token (waiting nr q) h = h
  same_round s commit node token (applying nr i) h = h

module _ {E D : Type 0} (log : Log D) (g c : ℕ) where
  pub step-Tracks :
      (e : Event E) (s : System E D) → IsConsistent s → Tracks g c s → Tracks g c (step log e s)
  unfolding step
  step-Tracks signal s ok t = record {
    early = t.early;
    told = t.told;
    round = same_round g c s s.commit s.node true s.loop t.round;
  }
  step-Tracks take s ok t = take_token-Tracks g c s.loop s.token s t
  step-Tracks (read_index a) s ok t = ask_raft-Tracks g c s.loop a s t ok.round
  step-Tracks (answer k more) s ok t = answer_to-Tracks g c (get_elem? s.asked k) k more s refl t
  step-Tracks lose s ok t = lose_first-Tracks g c s.read_states s refl t
  step-Tracks receive s ok t = receive_state-Tracks g c s.loop s.read_states s refl t t.round
  step-Tracks (abort e) s ok t = abort_wait-Tracks g c s.loop e s t
  step-Tracks reach s ok t = reach_index-Tracks g c s.loop s t t.round
  step-Tracks stop s ok t = stop_loop-Tracks g c s.loop s t
  step-Tracks (commits n) s ok t = record {
    early = omega (arith, t.early);
    told = t.told;
    round = same_round g c s (s.commit + n) s.node s.token s.loop t.round;
  }
  step-Tracks (advances a) s ok t =
      let more = node_step_grows log a s.node.phase s.node in
      record {
        early = t.early;
        told =
            All-impl s.notified (λ x kept same success. omega (arith, kept same success, more))
              t.told;
        round =
            same_round g c s s.commit (node_step log a s.node.phase s.node) s.token s.loop t.round;
      }
