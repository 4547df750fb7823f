-- ===== src/Hh/Segment/Fifo.antt =====
-- A segment does what a queue of blocks does, over any sequence of calls.
use mathlib.Core.Path.{subst}
use chronus.Base.{
  ap₂, ℕ, ◌+◌, ◌≤◌, ◌<◌, ◌≡◌, refl, sym, ap, ◌∙◌, Bool, true, false, List, [], ◌∷◌, ◌++◌, Outcome,
  ok, err, arith, All, All-append, length, ltb, if◌then◌else◌,
}
use chronus.Hh.Segment.{Error, Segment, segment_full, eof, append, current, advance}
use chronus.Hh.Segment.Layout.{frames, size_limit, size_of, image, Fits}
use chronus.Hh.Segment.Writes.{append_lem, append-Fits}
use chronus.Hh.Segment.Reads.{current-eof, current_lem}
use chronus.Hh.Segment.Advance.{advance-eof, advance_last, advance_next, Fits-pass}

-- A call on the segment, and its result.
pub data Call : Type 0 where
  push : List ℕ → Call
  peek pass : Call

pub data Reply : Type 0 where
  changed : Outcome Error (Unit {0}) → Reply
  read : Outcome Error (List ℕ) → Reply

-- The call on the segment.
abbrev pub call : Call → Segment → Reply × Segment
call (push b) s = let (result, s') = append b s in (changed result, s')
call peek s = let (result, s') = current s in (read result, s')
call pass s = let (result, s') = advance s in (changed result, s')

-- The blocks that were passed, and those that are still to be read.
abbrev pub Blocks : Type 0
Blocks = List (List ℕ) × List (List ℕ)

-- The call on the blocks.
abbrev pub respond : ℕ → Call → Blocks → Reply × Blocks
respond m (push b) (done, todo) =
    if ltb m (size_of done todo + length b)
    then (changed (err segment_full), (done, todo))
    else (changed (ok tt), (done, todo ++ b ∷ []))
respond m peek (done, []) = (read (err eof), (done, []))
respond m peek (done, b ∷ bs) = (read (ok b), (done, b ∷ bs))
respond m pass (done, []) = (changed (err eof), (done, []))
respond m pass (done, b ∷ []) = (changed (err eof), (done ++ b ∷ [], []))
respond m pass (done, b ∷ c ∷ cs) = (changed (ok tt), (done ++ b ∷ [], c ∷ cs))

-- The segment holds the blocks, and none is longer than the maximal size.
pub record Holds (m : ℕ) (blocks : Blocks) (s : Segment) : Type 0 where
  pub offset : ℕ
  pub at : s ≡ image blocks.0 blocks.1 offset m
  pub fits : Fits blocks.0 blocks.1 m
  pub short : All (λ b. length b ≤ m) blocks.1

-- A block to append is not empty, and not too large for any segment.
abbrev pub Sized : Call → Type 0
Sized (push b) = (0 < length b) × (length b ≤ size_limit)
Sized peek = Unit
Sized pass = Unit

-- A result and a segment that are as the blocks say.
abbrev pub Matches : ℕ → Reply × Segment → Reply × Blocks → Type 0
Matches m got want = (got.0 ≡ want.0) × Holds m want.1 got.1

matches :
    (m offset : ℕ) (got : Reply × Segment) (reply : Reply) (done todo : List (List ℕ))
    → got ≡ (reply, image done todo offset m)
    → Fits done todo m
    → All (λ b. length b ≤ m) todo
    → Matches m got (reply, (done, todo))
matches m offset got reply done todo runs fits short = (
  ap (λ r. r.0) runs,
  record { offset = offset; at = ap (λ r. r.1) runs; fits = fits; short = short },
)

-- What `append` gives, as a reply.
abbrev pub reply_of : Outcome Error (Unit {0}) × Segment → Reply × Segment
reply_of r = (changed r.0, r.1)

abbrev pub read_of : Outcome Error (List ℕ) × Segment → Reply × Segment
read_of r = (read r.0, r.1)

module _ (m offset : ℕ) (done : List (List ℕ)) where
  Matches-push :
      (offset' : ℕ) (b : List ℕ) (todo : List (List ℕ)) (full : Bool) (got : Reply × Segment)
      → ltb m (size_of done todo + length b) ≡ full
      → got
        ≡ reply_of (
            if full
            then (err segment_full, image done todo offset m)
            else (ok tt, image done (todo ++ b ∷ []) offset' m))
      → Fits done todo m
      → All (λ b. length b ≤ m) todo
      → 0 < length b
      → Matches m got (
          if full
          then (changed (err segment_full), (done, todo))
          else (changed (ok tt), (done, todo ++ b ∷ [])))
  Matches-push offset' b todo true got full runs fits short some_byte =
      matches m offset got _ done todo runs fits short
  Matches-push offset' b todo false got room runs fits short some_byte =
      matches m offset' got _ done (todo ++ b ∷ []) runs
        (append-Fits done todo b offset m fits some_byte room)
        (All-append _ todo (b ∷ []) short (ground (arith, room), tt))

  -- Each call on a segment that holds the blocks.
  Matches-call :
      (c : Call) (todo : List (List ℕ))
      → Sized c
      → Fits done todo m
      → All (λ b. length b ≤ m) todo
      → Matches m (call c (image done todo offset m)) (respond m c (done, todo))
  Matches-call (push b) todo sized fits short =
      Matches-push _ b todo _ _ refl
        (ap reply_of (append_lem done todo b offset m fits sized.0 sized.1)) fits short sized.0
  Matches-call peek [] sized fits short =
      matches m offset _ _ done [] (ap read_of (current-eof done offset m fits)) fits short
  Matches-call peek (b ∷ bs) sized fits short =
      let short? : ltb m (length b) ≡ false = ground (arith, short.0) in
      let offset' = length (frames done) + 8 + length b in
      let runs : current (image done (b ∷ bs) offset m) ≡ (ok b, image done (b ∷ bs) offset' m) =
        current_lem done bs b offset m fits ∙ rw short? refl in
      matches m offset' _ _ done (b ∷ bs) (ap read_of runs) fits short
  Matches-call pass [] sized fits short =
      matches m offset _ _ done [] (ap reply_of (advance-eof done offset m fits)) fits short
  Matches-call pass (b ∷ []) sized fits short =
      matches m _ _ _ (done ++ b ∷ []) [] (ap reply_of (advance_last done b offset m fits))
        (Fits-pass done [] b m fits) short.1
  Matches-call pass (b ∷ d ∷ ds) sized fits short =
      matches m _ _ _ (done ++ b ∷ []) (d ∷ ds)
        (ap reply_of (advance_next done b offset m d ds fits)) (Fits-pass done (d ∷ ds) b m fits)
        short.1

-- A sequence of calls, with all the replies.
abbrev pub calls : List Call → Segment → List Reply
calls [] s = []
calls (c ∷ cs) s = let (reply, s') = call c s in reply ∷ calls cs s'

abbrev pub responses : ℕ → List Call → Blocks → List Reply
responses m [] blocks = []
responses m (c ∷ cs) blocks =
    let (reply, blocks') = respond m c blocks in reply ∷ responses m cs blocks'

-- The replies of a segment to any sequence of calls of append, current and advance are those of a
-- queue of blocks, first in, first out, where a block is refused exactly if the file's size and the
-- block's pass the maximal size. The blocks that are appended are neither empty nor longer than
-- 2 ^ 61 bytes, and the segment holds blocks at the start, none of them longer than its maximal size.
pub calls-responses :
    (m : ℕ) (cs : List Call) (blocks : Blocks) (s : Segment)
    → All Sized cs
    → Holds m blocks s
    → calls cs s ≡ responses m cs blocks
calls-responses m [] blocks s sized holds = refl
calls-responses m (c ∷ cs) blocks s sized holds =
    let matched : Matches m (call c s) (respond m c blocks) =
      subst (λ s. Matches m (call c s) (respond m c blocks)) (sym holds.at)
        (Matches-call m holds.offset blocks.0 c blocks.1 sized.0 holds.fits holds.short) in
    ap₂ (λ r rs. r ∷ rs) matched.0 (calls-responses m cs _ _ sized.1 matched.1)
