-- ===== src/Hh/Segment/Reopen.antt =====
-- A new segment is empty, and a segment that is closed is found again by `newSegment`.
use mathlib.Core.List.{append_assoc, append-nil}
use chronus.Base.{
  ℕ, ◌+◌, ◌≡◌, refl, sym, ap, ◌∙◌, true, false, List, [], ◌∷◌, ◌++◌, ok, arith, length,
  length-append, ◌==◌,
}
use chronus.Hh.Bytes.{put_uint64, int_ltb, int_ltb-small}
use chronus.Hh.Segment.{
  seek_end_footer, seek_to_current, write_uint64, read_uint64, set_pos, set_current_size, set_size,
  open_new, open_current, open_existing, open_segment, new_segment, footer_pos,
}
use chronus.Hh.Segment.Layout.{
  frame, frames, size_of, on_disk, footer, image, Fits, length-put_uint64, length-frame,
}
use chronus.Hh.Segment.Steps.{
  bind-ok, then-ok, seek_end_footer-ok, seek_to_current-ok, write_uint64-ok, read_uint64-ok,
}
use chronus.Hh.Segment.Reads.{footer_pos-size}

-- A segment on a new file holds no block.
pub new_segment-empty : (max_size : ℕ) → new_segment [] max_size ≡ (ok tt, image [] [] 8 max_size)
unfolding new_segment open_segment open_new set_pos set_current_size set_size
new_segment-empty max_size =
    then-ok (set_pos 0) _ _ _ refl
    ∙ then-ok (set_current_size 0) _ _ _ refl
    ∙ then-ok (write_uint64 0) _ _ _
        (write_uint64-ok 0 0 0 0 max_size [] [] [] 0 refl refl (omega arith))
    ∙ rw length-put_uint64

-- The end of `open`: the current size is read where there is a head block.
open_current-ok :
    (done todo : List (List ℕ)) (max_size : ℕ)
    → Fits done todo max_size
    → (offset : ℕ) × (open_current (
          on_disk
            (size_of done todo)
            (frames done ++ (frames todo ++ footer done))
            (length (frames done))
            (length (frames done))
            0
            max_size)
        ≡ (ok tt, image done todo offset max_size))
unfolding open_current set_current_size
open_current-ok done [] max_size fits =
    let pos = length (frames done) in
    let end : int_ltb pos (footer_pos (size_of done [])) ≡ false =
      rw (footer_pos-size done [] fits.bounded) (
        int_ltb-small pos (pos + 0) (omega (arith, fits.bounded)) (omega (arith, fits.bounded))
        ∙ ground arith) in
    (pos, rw end)
open_current-ok done (b ∷ bs) max_size fits =
    let pos = length (frames done) in
    let size = size_of done (b ∷ bs) in
    let shape = length-append (frame b) (frames bs) in
    let more : int_ltb pos (footer_pos size) ≡ true =
      rw (footer_pos-size done (b ∷ bs) fits.bounded) (
        int_ltb-small pos (pos + length (frames (b ∷ bs))) (omega (arith, fits.bounded))
          (omega (arith, fits.bounded))
        ∙ ground (arith, shape, length-frame b)) in
    let bytes : frames done ++ (frames (b ∷ bs) ++ footer done)
        ≡ frames done ++ (put_uint64 (length b) ++ (b ++ (frames bs ++ footer done))) =
      simp append_assoc in
    (
      pos + 8,
      rw more (
          bind-ok read_uint64 _ _ _ _ (
            read_uint64-ok size pos pos 0 max_size _ (frames done) _ (length b) bytes refl
              (omega (arith, fits.bounded, shape, length-frame b)))),
    )

-- Opening the file of a segment again gives a segment with the same blocks, passed and to be read,
-- if none that is to be read is empty, with any maximal size up to 2 ^ 61.
pub new_segment_reopens :
    (done todo : List (List ℕ)) (max_size : ℕ)
    → Fits done todo max_size
    → (offset : ℕ) × (new_segment (frames done ++ (frames todo ++ footer done)) max_size
        ≡ (ok tt, image done todo offset max_size))
unfolding new_segment open_segment open_existing set_pos
new_segment_reopens done todo max_size fits =
    let bytes = frames done ++ (frames todo ++ footer done) in
    let front = frames done ++ frames todo in
    let pos = length (frames done) in
    let split = sym (append_assoc (frames done) (frames todo) (footer done)) in
    let size : length bytes ≡ size_of done todo = omega (
      arith,
      length-append (frames done) (frames todo ++ footer done),
      length-append (frames todo) (footer done),
      length-put_uint64 pos,
    ) in
    let old : (size_of done todo == 0) ≡ false = ground arith in
    let (offset, opened) = open_current-ok done todo max_size fits in
    (
      offset,
      rw (size, old)
          (then-ok seek_end_footer _ _ _ (
              seek_end_footer-ok (size_of done todo) 0 0 0 max_size bytes front (footer done) split
                (length-put_uint64 pos))
            ∙ bind-ok read_uint64 _ _ _ _ (
                read_uint64-ok (size_of done todo) (length front) 0 0 max_size bytes front [] pos
                  (split ∙ ap (λ l. front ++ l) (sym (append-nil (footer done)))) refl
                  (omega (arith, fits.bounded)))
            ∙ then-ok (set_pos pos) _ _ _ refl
            ∙ then-ok seek_to_current _ _ _ (
                seek_to_current-ok (size_of done todo) (length front + 8) pos 0 max_size bytes
                  (omega (arith, fits.bounded)))
            ∙ opened),
    )
