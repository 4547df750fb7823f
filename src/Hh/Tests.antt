-- ===== src/Hh/Tests.antt =====
-- A concrete queue, tests of the operations on it and instances of the theorems on the handoff.
use chronus.Base.{
  ℕ, ◌+◌, ◌≡◌, ◌≢◌, refl, false, List, [], ◌∷◌, ◌++◌, some, ok, err, arith, ltb, if◌then◌else◌,
}
use chronus.Hh.Bytes.{put_uint64, uint64, uint64-put_uint64, int_ltb}
use chronus.Hh.Segment
use chronus.Hh.Segment.{
  Segment, eof, segment_full, queue_full, record_size_out_of_range, new_segment,
}
use chronus.Hh.Segment.Layout.{frames, size_of, footer, image, Fits}
use chronus.Hh.Segment.Writes.{append_lem}
use chronus.Hh.Segment.Reads.{current_lem}
use chronus.Hh.Segment.Advance.{advance_last, advance_next}
use chronus.Hh.Segment.Reopen.{new_segment_reopens}
use chronus.Hh.Segment.Fifo.{Call, push, peek, pass, changed, read, calls, calls-responses}
use chronus.Hh.Queue.{
  Queue, update, total_size, disk_usage, max_id, next_segment_id, append, current, advance,
  purge_round,
}
use chronus.Hh.Queue.Append.{is_full, append_offset, with_segment, rolled, append_exact}
use chronus.Hh.Queue.Advances.{passed_offset, trimmed, advance_within, advance_across}
use chronus.Hh.Queue.Stuck.{append_stuck}
use chronus.Hh.Queue.Purge.{purged, append_lost}

abbrev one : List ℕ
one = 7 ∷ 8 ∷ []

abbrev two : List ℕ
two = 9 ∷ []

abbrev max_size : ℕ
max_size = 40

blocks-Fits : Fits [] (one ∷ two ∷ []) max_size
unfolding put_uint64
blocks-Fits = record {
  nonempty = (omega arith, (omega arith, tt));
  bounded = omega arith;
  max_bounded = omega arith;
}

two-Fits : Fits (one ∷ []) (two ∷ []) max_size
unfolding put_uint64
two-Fits = record { nonempty = (omega arith, tt); bounded = omega arith; max_bounded = omega arith }

drained-Fits : Fits (one ∷ two ∷ []) [] max_size
unfolding put_uint64
drained-Fits = record { nonempty = tt; bounded = omega arith; max_bounded = omega arith }

uint64-put_uint64_example : uint64 (put_uint64 258) ≡ 258
uint64-put_uint64_example = uint64-put_uint64 258 (omega arith)

append_lem_test : Segment.append two (image [] (one ∷ two ∷ []) 0 max_size) ≡ (
    if ltb max_size (size_of [] (one ∷ two ∷ []) + 1)
    then (err segment_full, image [] (one ∷ two ∷ []) 0 max_size)
    else (ok tt, image [] (one ∷ two ∷ two ∷ []) (append_offset [] (one ∷ two ∷ []) two) max_size))
append_lem_test =
    append_lem [] (one ∷ two ∷ []) two 0 max_size blocks-Fits (omega arith) (omega arith)

current_lem_test :
    Segment.current (image [] (one ∷ two ∷ []) 0 max_size)
    ≡ (ok one, image [] (one ∷ two ∷ []) 10 max_size)
current_lem_test = current_lem [] (two ∷ []) one 0 max_size blocks-Fits

advance_next_test :
    Segment.advance (image [] (one ∷ two ∷ []) 0 max_size)
    ≡ (ok tt, image (one ∷ []) (two ∷ []) (passed_offset [] one) max_size)
advance_next_test = advance_next [] one 0 max_size two [] blocks-Fits

advance_last_test :
    Segment.advance (image (one ∷ []) (two ∷ []) 0 max_size)
    ≡ (err eof, image (one ∷ two ∷ []) [] (passed_offset (one ∷ []) two) max_size)
advance_last_test = advance_last (one ∷ []) two 0 max_size two-Fits

new_segment_reopens_example :
    (offset : ℕ) × (new_segment
        (frames (one ∷ []) ++ (frames (two ∷ []) ++ footer (one ∷ [])))
        max_size
      ≡ (ok tt, image (one ∷ []) (two ∷ []) offset max_size))
new_segment_reopens_example = new_segment_reopens (one ∷ []) (two ∷ []) max_size two-Fits

-- A queue whose one or two segments are 1 and 2; 1 is `s`, the others are new.
abbrev queue : List ℕ → Segment → Queue
queue segments s = record {
  head = some 1;
  tail = some 1;
  max_segment_size = max_size;
  max_size = 1000;
  segments = segments;
  store = update (λ p. image [] [] 8 max_size) 1 s;
  files = segments;
}

abbrev drained : Segment
drained = image (one ∷ two ∷ []) [] 0 20

shrunk-Fits : Fits (one ∷ two ∷ []) [] 20
unfolding put_uint64
shrunk-Fits = record { nonempty = tt; bounded = omega arith; max_bounded = omega arith }

free : is_full two (queue (1 ∷ []) drained) ≡ false
unfolding disk_usage total_size int_ltb put_uint64
free = refl

new_id : 1 ≢ next_segment_id (queue (1 ∷ []) drained).files
unfolding next_segment_id max_id
new_id = omega arith

append_exact_example : append two (queue (1 ∷ []) (image [] (one ∷ two ∷ []) 0 max_size)) ≡ (
  ok tt,
  with_segment
      (queue (1 ∷ []) (image [] (one ∷ two ∷ []) 0 max_size))
      1
      (image [] (one ∷ two ∷ two ∷ []) (append_offset [] (one ∷ two ∷ []) two) max_size),
)
unfolding disk_usage total_size int_ltb put_uint64
append_exact_example =
    append_exact two (queue (1 ∷ []) (image [] (one ∷ two ∷ []) 0 max_size)) 1 [] (one ∷ two ∷ []) 0
      max_size refl refl blocks-Fits (omega arith) (omega arith) (omega arith)

append_stuck_example :
    (append two (queue (1 ∷ []) drained) ≡ (
      ok tt,
      rolled (queue (1 ∷ []) drained) (image [] (two ∷ []) (append_offset [] [] two) max_size),
    ))
    × ((current (append two (queue (1 ∷ []) drained)).1).0 ≡ err eof)
unfolding put_uint64
append_stuck_example =
    append_stuck two (queue (1 ∷ []) drained) 1 (one ∷ two ∷ []) 0 20 refl refl refl shrunk-Fits
      (omega arith) (omega arith) (omega arith) free (omega arith) (omega arith) new_id

abbrev after_purge : Queue
after_purge = purged (queue (1 ∷ []) drained) 1 drained

free_purged : is_full two after_purge ≡ false
unfolding disk_usage total_size int_ltb put_uint64 next_segment_id max_id
free_purged = refl

append_lost_example :
    (purge_round 1 (queue (1 ∷ []) drained) ≡ (ok tt, after_purge))
    × (append two after_purge ≡ (ok tt, after_purge))
append_lost_example =
    append_lost (queue (1 ∷ []) drained) 1 drained _ two refl refl refl refl new_id free_purged

advance_within_test : advance (queue (1 ∷ []) (image [] (one ∷ two ∷ []) 0 max_size)) ≡ (
  ok tt,
  with_segment
      (queue (1 ∷ []) (image [] (one ∷ two ∷ []) 0 max_size))
      1
      (image (one ∷ []) (two ∷ []) (passed_offset [] one) max_size),
)
advance_within_test =
    advance_within (queue (1 ∷ []) (image [] (one ∷ two ∷ []) 0 max_size)) 1 [] one 0 max_size two
      [] refl refl blocks-Fits

advance_across_example : advance (queue (1 ∷ 2 ∷ []) (image (one ∷ []) (two ∷ []) 0 max_size)) ≡ (
  ok tt,
  trimmed
      (queue (1 ∷ 2 ∷ []) (image (one ∷ []) (two ∷ []) 0 max_size))
      1
      (image (one ∷ two ∷ []) [] (passed_offset (one ∷ []) two) max_size)
      2
      [],
)
advance_across_example =
    advance_across (queue (1 ∷ 2 ∷ []) (image (one ∷ []) (two ∷ []) 0 max_size)) 1 (one ∷ []) two 0
      max_size 2 [] refl refl refl two-Fits

-- Two blocks are appended to a new segment and read; then the segment is at its end.
abbrev some_calls : List Call
some_calls = push one ∷ push two ∷ peek ∷ pass ∷ peek ∷ pass ∷ peek ∷ []

calls-responses_example :
    calls some_calls (image [] [] 8 max_size)
    ≡ changed (ok tt)
      ∷ changed (ok tt)
      ∷ read (ok one)
      ∷ changed (ok tt)
      ∷ read (ok two)
      ∷ changed (err eof)
      ∷ read (err eof)
      ∷ []
unfolding put_uint64
calls-responses_example =
    calls-responses max_size some_calls ([], []) (image [] [] 8 max_size)
      ((omega arith, omega arith), ((omega arith, omega arith), (tt, (tt, (tt, (tt, (tt, tt)))))))
      (record {
        offset = 8;
        at = refl;
        fits = record { nonempty = tt; bounded = omega arith; max_bounded = omega arith };
        short = tt;
      })
