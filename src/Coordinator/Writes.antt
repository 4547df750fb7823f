-- ===== src/Coordinator/Writes.antt =====
-- coordinator/points_writer.go: writeToShard. What the store, the other nodes and the hinted handoff
-- answer is a parameter, and so is the order in which the owners' goroutines answer. The calls that an
-- owner's goroutine makes are kept in a log. Statistics and log messages are left out.
pub mod Levels
pub mod Outcomes
use chronus.Base.{
  ℕ, zero, suc, ◌+◌, ◌/◌, Bool, true, false, ◌&&◌, not, List, [], ◌∷◌, ◌++◌, Option, none, some,
  map, length, take, ◌==◌, leb, ltb, if◌then◌else◌,
}

-- models.ConsistencyLevel
pub data ConsistencyLevel : Type 0 where
  any one quorum all : ConsistencyLevel

-- A call, and the error that it gave, none where it succeeded.
pub data Call (E : Type 0) : Type 0 where
  local_write create_shard remote_write hand_off : Option E → Call E

-- The answers that one owner's goroutine gets, and the tests on errors that it makes.
pub record Answers (E : Type 0) : Type 0 where
  pub write : Option E
  pub create : Option E
  pub write_again : Option E
  pub remote : Option E
  pub handoff : Option E
  pub is_shard_not_found : E → Bool
  pub is_type_conflict : E → Bool

abbrev pub is_any : ConsistencyLevel → Bool
is_any any = true
is_any level = false

abbrev pub Log : Type 0 → Type 0
Log E = Option E × List (Call E)

module _ {E : Type 0} (answers : Answers E) where
  -- After the answer to the creation of the shard, which the error `e` asked for.
  unfoldable pub write_created : E → Option E → Log E
  write_created e (some e') = (some e', local_write (some e) ∷ create_shard (some e') ∷ [])
  write_created e none = (
    answers.write_again,
    local_write (some e) ∷ create_shard none ∷ local_write answers.write_again ∷ [],
  )

  unfoldable pub write_local : Option E → Log E
  write_local none = (none, local_write none ∷ [])
  write_local (some e) =
      if answers.is_shard_not_found e
      then write_created e answers.create
      else (some e, local_write (some e) ∷ [])

  unfoldable pub can_retry : E → Bool
  can_retry e = not (answers.is_type_conflict e)

  -- The hinted handoff counts as a write at the level Any alone.
  unfoldable pub enqueue : ConsistencyLevel → E → Option E → Log E
  enqueue level e (some hh) = (some hh, remote_write (some e) ∷ hand_off (some hh) ∷ [])
  enqueue level e none =
      (if is_any level then none else some e, remote_write (some e) ∷ hand_off none ∷ [])

  unfoldable pub write_remote : ConsistencyLevel → Option E → Log E
  write_remote level none = (none, remote_write none ∷ [])
  write_remote level (some e) =
      if can_retry e then enqueue level e answers.handoff else (some e, remote_write (some e) ∷ [])

  -- The goroutine of one owner.
  unfoldable pub write_owner : ℕ → ConsistencyLevel → ℕ → Log E
  write_owner node level owner =
      if node == owner then write_local answers.write else write_remote level answers.remote

-- What one pass of the loop over the owners receives.
pub data Interrupt : Type 0 where
  closing timeout : Interrupt

pub data Event (E : Type 0) : Type 0 where
  interrupt : Interrupt → Event E
  result : Option E → Event E

pub data WriteError (E : Type 0) : Type 0 where
  write_failed timed_out partial_write : WriteError E
  failed : E → WriteError E

unfoldable pub required : ConsistencyLevel → ℕ → ℕ
required any owners = 1
required one owners = 1
required quorum owners = owners / 2 + 1
required all owners = owners

abbrev pub first_error : {E : Type 0} → Option E → E → Option E
first_error none e = some e
first_error (some e) e' = some e

-- After the loop.
unfoldable pub give_up : {E : Type 0} → ℕ → Option E → Option (WriteError E)
give_up (suc wrote) e = some partial_write
give_up zero (some e) = some (failed e)
give_up zero none = some write_failed

-- The loop over the owners, which ends at the event that decides.
unfoldable pub collect : {E : Type 0} → ℕ → List (Event E) → ℕ → Option E → Option (WriteError E)
collect need [] wrote e = give_up wrote e
collect need (interrupt closing ∷ events) wrote e = some write_failed
collect need (interrupt timeout ∷ events) wrote e = some timed_out
collect need (result (some e') ∷ events) wrote e = collect need events wrote (first_error e e')
collect need (result none ∷ events) wrote e =
    let rest = collect need events (suc wrote) e in if leb need (suc wrote) then none else rest

-- `arrived` are the owners in the order in which they answer, and `cut` is what the loop receives
-- then; it receives one event for each owner at most.
unfoldable pub write_to_shard :
    {E : Type 0}
    → (ℕ → Answers E)
    → ℕ
    → ConsistencyLevel
    → List ℕ
    → List ℕ
    → List Interrupt
    → Option (WriteError E)
write_to_shard answers node level owners arrived cut =
    collect (required level (length owners))
      (take (length owners) (
        map result (map (λ owner. (write_owner (answers owner) node level owner).0) arrived)
        ++ map interrupt cut))
      0 none
