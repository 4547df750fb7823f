-- ===== src/Coordinator/Writes/Levels.antt =====
-- What the consistency levels promise.
use mathlib.Core.List.{Permᴰ}
use chronus.Base.{
  ℕ, zero, suc, ◌+◌, ◌≤◌, ◌≡◌, refl, ap₂, ◌∙◌, Bool, true, false, ◌||◌, List, [], ◌∷◌, ◌++◌, Option,
  none, some, map, length, take, ◌==◌, leb, if◌then◌else◌, arith, Bool-cases, inl, inr,
}
use chronus.Coordinator.Writes.{
  ConsistencyLevel, any, one, quorum, all, Call, local_write, create_shard, remote_write, hand_off,
  Answers, write_created, write_local, enqueue, write_remote, can_retry, write_owner, Event,
  Interrupt, interrupt, closing, timeout, result, required, first_error, give_up, collect,
  write_to_shard, is_any,
}

abbrev pub succeeds : {E : Type 0} → Option E → Bool
succeeds none = true
succeeds (some e) = false

-- Did a call store the points, or at the level Any keep them for the node?
abbrev pub stores : {E : Type 0} → ConsistencyLevel → Call E → Bool
stores level (local_write e) = succeeds e
stores level (remote_write e) = succeeds e
stores any (hand_off e) = succeeds e
stores level (hand_off e) = false
stores level (create_shard e) = false

abbrev pub is_stored : {E : Type 0} → ConsistencyLevel → List (Call E) → Bool
is_stored level [] = false
is_stored level (c ∷ cs) = stores level c || is_stored level cs

-- How many of the owners have stored the points?
abbrev pub count_stored : {E : Type 0} → (ℕ → Answers E) → ℕ → ConsistencyLevel → List ℕ → ℕ
count_stored answers node level [] = 0
count_stored answers node level (owner ∷ owners) =
    (if is_stored level (write_owner (answers owner) node level owner).1 then 1 else 0)
    + count_stored answers node level owners

-- A goroutine reports success exactly if one of its calls stored the points.
module _ {E : Type 0} (answers : Answers E) (level : ConsistencyLevel) where
  abbrev Agrees : Option E × List (Call E) → Type 0
  Agrees log = succeeds log.0 ≡ is_stored level log.1

  or_false : (b : Bool) → b ≡ (b || false)
  or_false b = ground arith

  enqueue-Agrees : (e : E) (hh : Option E) → Agrees (enqueue answers level e hh)
  unfolding enqueue
  enqueue-Agrees e (some e') = refused level
    where
      refused : (l : ConsistencyLevel) → false ≡ (stores {E = E} l (hand_off (some e')) || false)
      refused any = refl
      refused one = refl
      refused quorum = refl
      refused all = refl
  enqueue-Agrees e none = kept level
    where
      kept :
          (l : ConsistencyLevel)
          → succeeds {E = E} (if is_any l then none else some e)
            ≡ (stores {E = E} l (hand_off none) || false)
      kept any = refl
      kept one = refl
      kept quorum = refl
      kept all = refl

  write_created-Agrees : (e : E) (c : Option E) → Agrees (write_created answers e c)
  unfolding write_created
  write_created-Agrees e none = or_false (succeeds answers.write_again)
  write_created-Agrees e (some e') = refl

  write_local-Agrees : (w : Option E) → Agrees (write_local answers w)
  unfolding write_local
  write_local-Agrees none = refl
  write_local-Agrees (some e) = elim (Bool-cases (answers.is_shard_not_found e)) [
    | inl missing ↦ rw missing (write_created-Agrees e answers.create)
    | inr present ↦ rw present refl
  ]

  write_remote-Agrees : (w : Option E) → Agrees (write_remote answers level w)
  unfolding write_remote
  write_remote-Agrees none = refl
  write_remote-Agrees (some e) = elim (Bool-cases (can_retry answers e)) [
    | inl retry ↦ rw retry (enqueue-Agrees e answers.handoff)
    | inr conflict ↦ rw conflict refl
  ]

  pub write_owner-Agrees : (node owner : ℕ) → Agrees (write_owner answers node level owner)
  unfolding write_owner
  write_owner-Agrees node owner = elim (Bool-cases (node == owner)) [
    | inl here ↦ rw here (write_local-Agrees answers.write)
    | inr away ↦ rw away (write_remote-Agrees answers.remote)
  ]

-- How many answers are successes?
abbrev successes : {E : Type 0} → List (Event E) → ℕ
successes [] = 0
successes (interrupt i ∷ events) = successes events
successes (result e ∷ events) = (if succeeds e then 1 else 0) + successes events

-- The loop succeeds only with as many successes as are needed.
collect-successes :
    {E : Type 0} (need : ℕ) (events : List (Event E)) (wrote : ℕ) (e : Option E)
    → collect need events wrote e ≡ none
    → need ≤ wrote + successes events
unfolding collect give_up
collect-successes need [] zero none h = cc
collect-successes need [] zero (some e) h = cc
collect-successes need [] (suc wrote) e h = cc
collect-successes need (interrupt closing ∷ events) wrote e h = cc
collect-successes need (interrupt timeout ∷ events) wrote e h = cc
collect-successes need (result (some e') ∷ events) wrote e h =
    let rest = collect-successes need events wrote (first_error e e') h in omega (arith, rest)
collect-successes need (result none ∷ events) wrote e h = elim (Bool-cases (leb need (suc wrote))) [
  | inl enough ↦ ground (arith, enough)
  | inr more ↦
      let rest = collect-successes need events (suc wrote) e (rw more at h) in omega (arith, rest)
]

-- A bound on the events that are received does not add a success.
successes-take :
    {E : Type 0} (n : ℕ) (events : List (Event E)) → successes (take n events) ≤ successes events
successes-take zero events = omega arith
successes-take (suc n) [] = omega arith
successes-take (suc n) (interrupt i ∷ events) = successes-take n events
successes-take (suc n) (result e ∷ events) = omega (arith, successes-take n events)

successes-interrupts :
    (E : Type 0) (cut : List Interrupt) → successes {E = E} (map interrupt cut) ≡ 0
successes-interrupts E [] = refl
successes-interrupts E (i ∷ cut) = successes-interrupts E cut

module _ {E : Type 0} (answers : ℕ → Answers E) (node : ℕ) (level : ConsistencyLevel) where
  abbrev pub answer : ℕ → Option E
  answer owner = (write_owner (answers owner) node level owner).0

  successes-arrived :
      (arrived : List ℕ) (events : List (Event E))
      → successes (map result (map answer arrived) ++ events)
        ≡ count_stored answers node level arrived + successes events
  successes-arrived [] events = omega arith
  successes-arrived (owner ∷ arrived) events =
      let agrees = write_owner-Agrees (answers owner) level node owner in
      let rest = successes-arrived arrived events in
      ap₂ (λ b n. (if b then 1 else 0) + n) agrees rest ∙ omega arith

  count_stored-append :
      (xs ys : List ℕ)
      → count_stored answers node level (xs ++ ys)
        ≡ count_stored answers node level xs + count_stored answers node level ys
  count_stored-append [] ys = omega arith
  count_stored-append (x ∷ xs) ys = omega (arith, count_stored-append xs ys)

  pub count_stored-Perm :
      {xs ys : List ℕ}
      → Permᴰ xs ys
      → count_stored answers node level xs ≡ count_stored answers node level ys
  count_stored-Perm Permᴰ.nil = refl
  count_stored-Perm (Permᴰ.cons e h) = cc (e, count_stored-Perm h)
  count_stored-Perm (Permᴰ.swap e f) = rw (← e, ← f) (omega arith)
  count_stored-Perm (Permᴰ.trans h k) = count_stored-Perm h ∙ count_stored-Perm k

  -- A write that is reported as successful has been stored by as many of the shard's owners as the
  -- level requires, all of them, more than half of them or one, even if the loop was cut short:
  -- stored by a call on the local or the remote store, or at the level Any by the hinted handoff. The
  -- owners that have answered are some of the owners.
  pub write_to_shard_stored :
      (owners arrived late : List ℕ) (cut : List Interrupt)
      → Permᴰ (arrived ++ late) owners
      → write_to_shard answers node level owners arrived cut ≡ none
      → required level (length owners) ≤ count_stored answers node level owners
  unfolding write_to_shard
  write_to_shard_stored owners arrived late cut split success =
      let events = map result (map answer arrived) ++ map interrupt cut in
      omega (
        arith,
        collect-successes (required level (length owners)) (take (length owners) events) 0 none
            success,
        successes-take (length owners) events,
        successes-arrived arrived (map interrupt cut),
        successes-interrupts E cut,
        count_stored-append arrived late,
        count_stored-Perm split,
      )
