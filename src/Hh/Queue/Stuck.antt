-- ===== src/Hh/Queue/Stuck.antt =====
-- What Append and Current do together at a head that is the tail and holds no more block.
use chronus.Base.{
  ℕ, ◌+◌, ◌≤◌, ◌<◌, ◌≡◌, ◌≢◌, refl, ap, ◌∙◌, true, false, List, [], ◌∷◌, some, ok, err, arith,
  length, ltb,
}
use chronus.Hh.Segment
use chronus.Hh.Segment.{Segment, eof}
use chronus.Hh.Segment.Layout.{size_limit, size_of, image, Fits}
use chronus.Hh.Segment.Reads.{current-eof}
use chronus.Hh.Queue.{Queue, update, next_segment_id, append, current, current_at}
use chronus.Hh.Queue.Append.{is_full, append_offset, rolled, append_exact, on_segment-ok}

-- Another pointer keeps its segment.
pub update_other :
    (store : ℕ → Segment) (p q : ℕ) (s : Segment) → q ≢ p → update store p s q ≡ store q
update_other store p q s h = ground (arith, h)

-- A block that does not fit behind the drained head, which is the tail as well, but into an empty
-- segment, goes to a new segment if the queue has room and the number of the new segment is another.
-- Append reports success, and Current then reports the end of the queue, though the block is in the
-- tail.
pub append_stuck :
    (b : List ℕ) (q : Queue) (h : ℕ) (done : List (List ℕ)) (offset m : ℕ)
    → q.head ≡ some h
    → q.tail ≡ some h
    → q.store h ≡ image done [] offset m
    → Fits done [] m
    → q.max_segment_size ≤ size_limit
    → 0 < length b
    → length b ≤ size_limit
    → is_full b q ≡ false
    → m < size_of done [] + length b
    → 8 + length b ≤ q.max_segment_size
    → h ≢ next_segment_id q.files
    → (append b q
        ≡ (ok tt, rolled q (image [] (b ∷ []) (append_offset [] [] b) q.max_segment_size)))
      × ((current (append b q).1).0 ≡ err eof)
unfolding current current_at
append_stuck b q h done offset m head tail at_h fits limit some_byte small free full fresh other =
    let s = image [] (b ∷ []) (append_offset [] [] b) q.max_segment_size in
    let q' = rolled q s in
    let full? : ltb m (size_of done [] + length b) ≡ true = ground arith in
    let fits? : ltb q.max_segment_size (8 + length b) ≡ false = ground arith in
    let appended : append b q ≡ (ok tt, q') =
      append_exact b q h done [] offset m tail at_h fits limit some_byte small
      ∙ rw (free, full?, fits?) refl in
    let same = update_other q.store (next_segment_id q.files) h s other ∙ at_h in
    (
      appended,
      ap (λ r. (current r.1).0) appended
          ∙ ap (λ p. (current_at p q').0) head
          ∙ ap (λ r. r.0)
              (on_segment-ok h Segment.current q' _ _ same (current-eof done offset m fits)),
    )
