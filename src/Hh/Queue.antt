-- ===== src/Hh/Queue.antt =====
-- services/hh/queue.go: `queue`, the segments of a directory. A pointer to a segment is the number
-- that names its file; numbers are not used again, since one file at least stays. `store` is the
-- heap of segments, the closed ones included. The locks are left out: the methods hold them.
pub mod Append
pub mod Stuck
pub mod Purge
pub mod Advances
use chronus.Base.{
  ℕ, ◌+◌, ◌%◌, ◌^◌, Bool, true, false, List, [], ◌∷◌, ◌++◌, Option, none, some, Outcome, ok, err,
  panic, length, ◌==◌, ltb, if◌then◌else◌, incr64,
}
use chronus.Hh.Bytes.{int_ltb}
use chronus.Hh.Segment
use chronus.Hh.Segment.{Error, Segment, not_open, queue_full, segment_full, eof, new_segment}

pub record Queue : Type 0 where
  pub head : Option ℕ
  pub tail : Option ℕ
  pub max_segment_size : ℕ
  pub max_size : ℕ
  pub segments : List ℕ
  pub store : ℕ → Segment
  pub files : List ℕ

abbrev pub M : Type 0 → Type 0
M A = Queue → Outcome Error A × Queue

-- A write to a segment through a pointer to it.
abbrev pub update : (ℕ → Segment) → ℕ → Segment → ℕ → Segment
update store p s q = if p == q then s else store q

-- A method of the segment behind a pointer.
abbrev pub on_segment : {A : Type 0} → ℕ → Segment.M A → M A
on_segment p m q =
    let (result, s) = m (q.store p) in (result, record q { store = update q.store p s })

unfoldable pub total_size : (ℕ → Segment) → List ℕ → ℕ
total_size store [] = 0
total_size store (p ∷ ps) = ((store p).size + total_size store ps) % 2 ^ 64

unfoldable pub disk_usage : Queue → ℕ
disk_usage q = total_size q.store q.segments

-- The greatest number of a file.
unfoldable pub max_id : List ℕ → ℕ
max_id [] = 0
max_id (n ∷ ns) = let rest = max_id ns in if ltb rest n then n else rest

unfoldable pub next_segment_id : List ℕ → ℕ
next_segment_id files = incr64 (max_id files)

-- What becomes of the new file once it is opened as a segment.
unfoldable pub add_opened : ℕ → Outcome Error (Unit {0}) × Segment → M ℕ
add_opened id (ok _, s) q = (
  ok id,
  record q {
    segments = q.segments ++ id ∷ [];
    store = update q.store id s;
    files = q.files ++ id ∷ [];
  },
)
add_opened id (err e, s) q = (err e, record q { files = q.files ++ id ∷ [] })
add_opened id (panic, s) q = (panic, record q { files = q.files ++ id ∷ [] })

-- A new, empty file, opened as the last segment; `tail` is left to the caller.
unfoldable pub add_segment : M ℕ
add_segment q = add_opened (next_segment_id q.files) (new_segment [] q.max_segment_size) q

-- The second try, on the new tail.
unfoldable pub retry : List ℕ → Outcome Error ℕ × Queue → Outcome Error (Unit {0}) × Queue
retry b (ok id, q) = on_segment id (Segment.append b) (record q { tail = some id })
retry b (err e, q) = (err e, q)
retry b (panic, q) = (panic, q)

unfoldable pub append_to_new : List ℕ → M (Unit {0})
append_to_new b q = retry b (add_segment q)

-- What Append does with the result of the tail's `append`: only ErrSegmentFull is looked at.
unfoldable pub after_append : List ℕ → Outcome Error (Unit {0}) → M (Unit {0})
after_append b (err segment_full) q = append_to_new b q
after_append b panic q = (panic, q)
after_append b other q = (ok tt, q)

-- `append`, once the pointer to the tail is read.
unfoldable pub append_at : List ℕ → Option ℕ → M (Unit {0})
append_at b none q = (err not_open, q)
append_at b (some t) q =
    if int_ltb q.max_size ((disk_usage q + length b) % 2 ^ 64)
    then (err queue_full, q)
    else let (result, q') = on_segment t (Segment.append b) q in after_append b result q'

unfoldable pub append : List ℕ → M (Unit {0})
append b q = append_at b q.tail q

-- `current`, once the pointer to the head is read.
unfoldable pub current_at : Option ℕ → M (List ℕ)
current_at none q = (err not_open, q)
current_at (some h) q = on_segment h Segment.current q

unfoldable pub current : M (List ℕ)
current q = current_at q.head q

-- The file of the head is closed and removed, unless it is the only one.
unfoldable pub remove_file : ℕ → List ℕ → List ℕ
remove_file id [] = []
remove_file id (n ∷ ns) = if n == id then ns else n ∷ remove_file id ns

-- The end of `trim_head`, for the segments behind the head.
unfoldable pub close_head :
    ℕ → ℕ → Outcome Error (Unit {0}) × Queue → Outcome Error (Unit {0}) × Queue
close_head h next (ok _, q) = (ok tt, record q { files = remove_file h q.files; head = some next })
close_head h next (err e, q) = (err e, q)
close_head h next (panic, q) = (panic, q)

unfoldable pub trim_to : ℕ → List ℕ → M (Unit {0})
trim_to h (p ∷ next ∷ rest) q =
    close_head h next (on_segment h Segment.close (record q { segments = next ∷ rest }))
trim_to h other q = (ok tt, q)

unfoldable pub trim_head : ℕ → M (Unit {0})
trim_head h q = trim_to h q.segments q

-- Advance goes on only from io.EOF; any other error of the segment is dropped.
unfoldable pub after_advance : ℕ → Outcome Error (Unit {0}) → M (Unit {0})
after_advance h (err eof) q = trim_head h q
after_advance h panic q = (panic, q)
after_advance h other q = (ok tt, q)

-- `advance`, once the pointer to the head is read.
unfoldable pub advance_at : Option ℕ → M (Unit {0})
advance_at none q = (err not_open, q)
advance_at (some h) q =
    let (result, q') = on_segment h Segment.advance q in after_advance h result q'

unfoldable pub advance : M (Unit {0})
advance q = advance_at q.head q

-- What a round does once the new segment is made; its error ends PurgeOlderThan.
unfoldable pub trim_grown : ℕ → Outcome Error ℕ × Queue → Outcome Error (Unit {0}) × Queue
trim_grown h (ok _, q) = trim_head h q
trim_grown h (err e, q) = (err e, q)
trim_grown h (panic, q) = (panic, q)

-- One round of PurgeOlderThan, for a head that was last modified before the cutoff.
unfoldable pub purge_round : ℕ → M (Unit {0})
purge_round h q = if length q.segments == 1 then trim_grown h (add_segment q) else trim_head h q
