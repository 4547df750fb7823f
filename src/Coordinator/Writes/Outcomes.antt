-- ===== src/Coordinator/Writes/Outcomes.antt =====
-- What writeToShard reports once all the owners have answered.
use mathlib.Core.List.{Permᴰ}
use chronus.Base.{
  ℕ, zero, suc, ◌+◌, ◌<◌, ◌≡◌, refl, ap, ap₂, ◌∙◌, List, [], ◌∷◌, Option, none, some, map, length,
  length-map, length-Perm, take-append, ◌==◌, leb, if◌then◌else◌, arith, Bool-cases, inl, inr,
}
use chronus.Coordinator.Writes.{
  ConsistencyLevel, any, one, quorum, all, Answers, Event, Interrupt, interrupt, result, WriteError,
  write_failed, partial_write, failed, required, first_error, give_up, collect, write_to_shard,
}
use chronus.Coordinator.Writes.Levels.{
  succeeds, count_stored, write_owner-Agrees, answer, count_stored-Perm,
}

-- How many of the results are successes, and the first error among them.
abbrev pub count_successes : {E : Type 0} → List (Option E) → ℕ
count_successes [] = 0
count_successes (r ∷ rs) = (if succeeds r then 1 else 0) + count_successes rs

abbrev pub first_failure : {E : Type 0} → List (Option E) → Option E
first_failure [] = none
first_failure (none ∷ rs) = first_failure rs
first_failure (some e ∷ rs) = some e

abbrev or_else : {E : Type 0} → Option E → Option E → Option E
or_else none e = e
or_else (some e) e' = some e

-- Without a success, the first error decides.
abbrev pub fail_with : {E : Type 0} → Option E → Option (WriteError E)
fail_with none = some write_failed
fail_with (some e) = some (failed e)

-- What a write ends with, of so many that are needed and so many that succeeded.
abbrev pub verdict : {E : Type 0} → ℕ → ℕ → Option E → Option (WriteError E)
verdict need wrote e =
    if leb need wrote then none else if wrote == 0 then fail_with e else some partial_write

or_else-first_error :
    {E : Type 0} (e : Option E) (e' : E) (later : Option E)
    → or_else (first_error e e') later ≡ or_else e (some e')
or_else-first_error none e' later = refl
or_else-first_error (some e) e' later = refl

collect-results :
    {E : Type 0} (need : ℕ) (rs : List (Option E)) (wrote : ℕ) (e : Option E)
    → wrote < need
    → collect need (map result rs) wrote e
      ≡ verdict need (wrote + count_successes rs) (or_else e (first_failure rs))
unfolding collect give_up
collect-results need [] zero none short = ground arith
collect-results need [] zero (some e) short = ground arith
collect-results need [] (suc wrote) e short = ground arith
collect-results need (some e' ∷ rs) wrote e short =
    collect-results need rs wrote (first_error e e') short
    ∙ ap₂ (verdict need) (omega arith) (or_else-first_error e e' (first_failure rs))
collect-results need (none ∷ rs) wrote e short = elim (Bool-cases (leb need (suc wrote))) [
  | inl enough ↦ ground (arith, enough)
  | inr more ↦ rw more (
      collect-results need rs (suc wrote) e (ground (arith, more))
      ∙ ap (λ n. verdict need n (or_else e (first_failure rs))) (omega arith))
]

required-pos : (level : ConsistencyLevel) (owners : ℕ) → 0 < owners → 0 < required level owners
unfolding required
required-pos any owners h = omega arith
required-pos one owners h = omega arith
required-pos quorum owners h = omega arith
required-pos all owners h = h

module _ {E : Type 0} (answers : ℕ → Answers E) (node : ℕ) (level : ConsistencyLevel) where
  count_successes-answers :
      (arrived : List ℕ)
      → count_successes (map (answer answers node level) arrived)
        ≡ count_stored answers node level arrived
  count_successes-answers [] = refl
  count_successes-answers (owner ∷ arrived) =
      ap₂ (λ b n. (if b then 1 else 0) + n) (write_owner-Agrees (answers owner) level node owner)
        (count_successes-answers arrived)

  -- Once all the owners of a shard have answered, in whatever order, the write is successful exactly if
  -- as many of them have stored the points as the level requires. Otherwise it is a partial write if
  -- one of them has, and else the error is that of the owner that answered first.
  pub write_to_shard_exact :
      (owners arrived : List ℕ) (cut : List Interrupt)
      → 0 < length owners
      → Permᴰ arrived owners
      → write_to_shard answers node level owners arrived cut
        ≡ verdict
            (required level (length owners))
            (count_stored answers node level owners)
            (first_failure (map (answer answers node level) arrived))
  unfolding write_to_shard
  write_to_shard_exact owners arrived cut some_owner order =
      let results = map (answer answers node level) arrived in
      let need = required level (length owners) in
      let whole : length {A = Event E} (map result results) ≡ length owners =
        length-map results result
        ∙ length-map arrived (answer answers node level)
        ∙ length-Perm order in
      ap (λ events. collect need events 0 none)
        (take-append (length owners) (map result results) (map interrupt cut) whole)
      ∙ collect-results need results 0 none (required-pos level (length owners) some_owner)
      ∙ ap (λ n. verdict need n (first_failure results))
          (omega
            (arith, count_successes-answers arrived, count_stored-Perm answers node level order))
