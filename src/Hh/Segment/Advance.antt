-- ===== src/Hh/Segment/Advance.antt =====
-- What `advance` does to the file, at the end of the segment and before it.
use mathlib.Core.List.{append_assoc, append-nil}
use chronus.Base.{
  ℕ, ◌+◌, ◌%◌, ◌^◌, ◌<◌, ◌≡◌, refl, sym, ap, ◌∙◌, true, List, [], ◌∷◌, ◌++◌, ok, err, arith, length,
  length-append, ◌==◌,
}
use chronus.Hh.Bytes.{put_uint64}
use chronus.Hh.Segment.{
  eof, seek_end_footer, seek_to_current, write_uint64, read_uint64, set_pos, set_current_size,
  check_end, advance_to, advance, footer_pos, ◌>>=◌, ◌>>◌,
}
use chronus.Hh.Segment.Layout.{
  frame, frames, size_of, on_disk, footer, image, Fits, length-put_uint64, frames-snoc,
  length-frames_snoc, length-frame,
}
use chronus.Hh.Segment.Steps.{
  bind-ok, then-ok, seek_end_footer-ok, seek_to_current-ok, write_uint64-ok, read_uint64-ok,
}
use chronus.Hh.Segment.Reads.{footer_pos-size, head-ne-footer}

-- At the end `advance` reports it.
pub advance-eof :
    (done : List (List ℕ)) (offset max_size : ℕ)
    → Fits done [] max_size
    → advance (image done [] offset max_size) ≡ (err eof, image done [] offset max_size)
unfolding advance
advance-eof done offset max_size fits =
    let end : (length (frames done) == footer_pos (size_of done [])) ≡ true =
      rw (footer_pos-size done [] fits.bounded) (ground arith) in
    rw end

-- Passing a block moves the head, and leaves the size.
size_of-pass :
    (done bs : List (List ℕ)) (b : List ℕ) → size_of (done ++ b ∷ []) bs ≡ size_of done (b ∷ bs)
size_of-pass done bs b =
    omega (arith, length-frames_snoc done b, length-append (frame b) (frames bs), length-frame b)

pub Fits-pass :
    (done bs : List (List ℕ)) (b : List ℕ) (max_size : ℕ)
    → Fits done (b ∷ bs) max_size
    → Fits (done ++ b ∷ []) bs max_size
Fits-pass done bs b max_size fits = record {
  nonempty = fits.nonempty.1;
  bounded = omega (arith, size_of-pass done bs b, fits.bounded);
  max_bounded = fits.max_bounded;
}

passed_bytes :
    (done bs : List (List ℕ)) (b : List ℕ)
    → (frames done ++ frames (b ∷ bs)) ++ footer (done ++ b ∷ [])
      ≡ frames (done ++ b ∷ []) ++ (frames bs ++ footer (done ++ b ∷ []))
passed_bytes done bs b =
    (ap (λ l. l ++ footer (done ++ b ∷ []))
      (sym (append_assoc (frames done) (frame b) (frames bs))
        ∙ ap (λ l. l ++ frames bs) (sym (frames-snoc done b))))
    ∙ append_assoc (frames (done ++ b ∷ [])) (frames bs) (footer (done ++ b ∷ []))

module _ (done bs : List (List ℕ)) (b : List ℕ) (offset max_size : ℕ)
    (fits : Fits done (b ∷ bs) max_size) where
  -- The file is rewritten; what is left is to read the new head.
  advance-write :
      advance (image done (b ∷ bs) offset max_size)
      ≡ (read_uint64 >>= λ n. set_current_size n >> check_end) (
          on_disk
            (size_of (done ++ b ∷ []) bs)
            (frames (done ++ b ∷ []) ++ (frames bs ++ footer (done ++ b ∷ [])))
            (length (frames (done ++ b ∷ [])))
            (length (frames (done ++ b ∷ [])))
            (length b)
            max_size)
  unfolding advance advance_to set_pos
  advance-write =
      let size = size_of done (b ∷ bs) in
      let pos = length (frames done) in
      let pos' = length (frames (done ++ b ∷ [])) in
      let front = frames done ++ frames (b ∷ bs) in
      let moved : (pos + length b + 8) % 2 ^ 64 ≡ pos' = omega (
        arith,
        length-frames_snoc done b,
        fits.bounded,
        length-append (frame b) (frames bs),
        length-frame b,
      ) in
      let small : pos' < 2 ^ 63 = omega (arith, size_of-pass done bs b, fits.bounded) in
      let split = sym (append_assoc (frames done) (frames (b ∷ bs)) (footer done)) in
      rw (head-ne-footer done bs b fits.bounded, moved)
        (then-ok seek_end_footer _ _ _ (
            seek_end_footer-ok size offset pos (length b) max_size _ front (footer done) split
              (length-put_uint64 pos))
          ∙ then-ok (write_uint64 pos') _ _ _ (
              write_uint64-ok size (length front) pos (length b) max_size _ front (footer done) pos'
                split refl (omega (arith, length-put_uint64 pos)))
          ∙ then-ok (set_pos pos') _ _ _ refl
          ∙ then-ok seek_to_current _ _ _ (
              seek_to_current-ok size (length (front ++ put_uint64 pos')) pos' (length b) max_size _
                small)
          ∙ rw (passed_bytes done bs b, size_of-pass done bs b))

module _ (done : List (List ℕ)) (b : List ℕ) (offset max_size : ℕ) where
  -- Where one block that is not empty is to be read, it is passed, and `advance` reports the end.
  pub advance_last :
      Fits done (b ∷ []) max_size
      → advance (image done (b ∷ []) offset max_size)
        ≡ (err eof, image (done ++ b ∷ []) [] (length (frames (done ++ b ∷ [])) + 8) max_size)
  unfolding set_current_size check_end
  advance_last fits =
      let done' = done ++ b ∷ [] in
      let pos' = length (frames done') in
      let fits' = Fits-pass done [] b max_size fits in
      let end : (pos' == footer_pos (size_of done' [])) ≡ true =
        rw (footer_pos-size done' [] fits'.bounded) (ground arith) in
      advance-write done [] b offset max_size fits
      ∙ bind-ok read_uint64 _ _ _ _ (
          read_uint64-ok (size_of done' []) pos' pos' (length b) max_size _ (frames done') [] pos'
            (ap (λ l. frames done' ++ l) (sym (append-nil (footer done')))) refl
            (omega (arith, fits'.bounded)))
      ∙ then-ok (set_current_size pos') _ _ _ refl
      ∙ rw end

  -- Where two blocks or more, none of them empty, are to be read, the head block is passed, and the
  -- next one becomes the head.
  pub advance_next :
      (c : List ℕ) (cs : List (List ℕ))
      → Fits done (b ∷ c ∷ cs) max_size
      → advance (image done (b ∷ c ∷ cs) offset max_size)
        ≡ (ok tt, image (done ++ b ∷ []) (c ∷ cs) (length (frames (done ++ b ∷ [])) + 8) max_size)
  unfolding set_current_size check_end
  advance_next c cs fits =
      let done' = done ++ b ∷ [] in
      let pos' = length (frames done') in
      let fits' = Fits-pass done (c ∷ cs) b max_size fits in
      let bytes : frames done' ++ (frames (c ∷ cs) ++ footer done')
          ≡ frames done' ++ (put_uint64 (length c) ++ (c ++ (frames cs ++ footer done'))) =
        simp append_assoc in
      advance-write done (c ∷ cs) b offset max_size fits
      ∙ bind-ok read_uint64 _ _ _ _ (
          read_uint64-ok (size_of done' (c ∷ cs)) pos' pos' (length b) max_size _ (frames done') _
            (length c) bytes refl
            (omega (arith, fits'.bounded, length-append (frame c) (frames cs), length-frame c)))
      ∙ then-ok (set_current_size (length c)) _ _ _ refl
      ∙ rw (head-ne-footer done' cs c fits'.bounded)
