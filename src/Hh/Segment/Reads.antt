-- ===== src/Hh/Segment/Reads.antt =====
-- What `current` and `advance` read, and that a segment is found again when it is reopened.
use mathlib.Core.List.{append_assoc}
use chronus.Base.{
  ℕ, ◌+◌, ◌^◌, ◌≤◌, ◌<◌, ◌≡◌, refl, ◌∙◌, true, false, List, [], ◌∷◌, ◌++◌, ok, err, arith, length,
  length-append, ltb, leb, ◌==◌, if◌then◌else◌,
}
use chronus.Hh.Bytes.{put_uint64, int_ltb-small}
use chronus.Hh.Segment.{
  eof, record_size_out_of_range, seek_to_current, read_uint64, set_current_size, read_block,
  current, footer_pos,
}
use chronus.Hh.Segment.Layout.{
  frame, frames, size_limit, size_of, footer, image, Fits, length-put_uint64, length-frame,
}
use chronus.Hh.Segment.Steps.{bind-ok, then-ok, seek_to_current-ok, read_bytes-ok, read_uint64-ok}

-- Where the head is, seen from the end.
pub footer_pos-size :
    (done todo : List (List ℕ))
    → size_of done todo ≤ size_limit + 8
    → footer_pos (size_of done todo) ≡ length (frames done) + length (frames todo)
footer_pos-size done todo h = omega arith

pub head-ne-footer :
    (done bs : List (List ℕ)) (b : List ℕ)
    → size_of done (b ∷ bs) ≤ size_limit + 8
    → (length (frames done) == footer_pos (size_of done (b ∷ bs))) ≡ false
head-ne-footer done bs b h =
    rw (footer_pos-size done (b ∷ bs) h)
      (ground (arith, length-append (frame b) (frames bs), length-frame b))

-- At the end there is no current block, and nothing changes.
pub current-eof :
    (done : List (List ℕ)) (offset max_size : ℕ)
    → Fits done [] max_size
    → current (image done [] offset max_size) ≡ (err eof, image done [] offset max_size)
unfolding current
current-eof done offset max_size fits =
    let end : (length (frames done) == footer_pos (size_of done [])) ≡ true =
      rw (footer_pos-size done [] fits.bounded) (ground arith) in
    rw end

module _ (done bs : List (List ℕ)) (b : List ℕ) (offset max_size : ℕ)
    (fits : Fits done (b ∷ bs) max_size) where
  block_small : length b < 2 ^ 62
  block_small = omega (arith, fits.bounded, length-append (frame b) (frames bs), length-frame b)

  -- The bytes of the file from the head on.
  head_bytes :
      frames done ++ (frames (b ∷ bs) ++ footer done)
      ≡ frames done ++ (put_uint64 (length b) ++ (b ++ (frames bs ++ footer done)))
  head_bytes = simp append_assoc

  block_bytes :
      frames done ++ (frames (b ∷ bs) ++ footer done)
      ≡ (frames done ++ put_uint64 (length b)) ++ (b ++ (frames bs ++ footer done))
  block_bytes = simp append_assoc

  read_block-ok :
      (start : ℕ)
      → start ≡ length (frames done) + 8
      → read_block (length b) (image done (b ∷ bs) start max_size) ≡ (
          if ltb max_size (length b)
          then (err record_size_out_of_range, image done (b ∷ bs) start max_size)
          else (ok b, image done (b ∷ bs) (start + length b) max_size))
  unfolding read_block
  read_block-ok start at =
      let small = block_small in
      let signed =
        int_ltb-small max_size (length b) (omega (arith, fits.max_bounded)) (omega arith) in
      let positive : leb (2 ^ 63) (length b) ≡ false = ground arith in
      rw (
        signed,
        positive,
        read_bytes-ok (size_of done (b ∷ bs)) start (length (frames done)) (length b) max_size _
            (frames done ++ put_uint64 (length b)) b (frames bs ++ footer done) (length b)
            block_bytes
            (omega (
              arith,
              length-append (frames done) (put_uint64 (length b)),
              length-put_uint64 (length b),
            ))
            refl fits.nonempty.0,
      )

  -- Where blocks are to be read, none of them empty, the current block is the first one of them;
  -- only one that is longer than the maximal size is refused. The blocks stay as they are.
  pub current_lem : current (image done (b ∷ bs) offset max_size) ≡ (
      if ltb max_size (length b)
      then (err record_size_out_of_range, image done (b ∷ bs) (length (frames done) + 8) max_size)
      else (ok b, image done (b ∷ bs) (length (frames done) + 8 + length b) max_size))
  unfolding current set_current_size
  current_lem =
      let pos = length (frames done) in
      let size = size_of done (b ∷ bs) in
      let small : pos < 2 ^ 63 = omega (arith, fits.bounded) in
      rw (head-ne-footer done bs b fits.bounded) (
        then-ok seek_to_current _ _ _
          (seek_to_current-ok size offset pos (length b) max_size _ small)
        ∙ bind-ok read_uint64 _ _ _ _ (
            read_uint64-ok size pos pos (length b) max_size _ (frames done) _ (length b) head_bytes
              refl (omega (arith, block_small)))
        ∙ then-ok (set_current_size (length b)) _ _ _ refl
        ∙ read_block-ok (pos + 8) refl)
