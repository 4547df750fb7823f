-- ===== src/Hh/Segment/Writes.antt =====
-- What `append` writes, and what a new segment holds.
use mathlib.Core.List.{append_assoc, append-nil}
use chronus.Base.{
  ℕ, ◌+◌, ◌%◌, ◌^◌, ◌≤◌, ◌<◌, ◌≡◌, refl, sym, ◌∙◌, false, List, [], ◌∷◌, ◌++◌, ok, err, arith, All,
  All-append, length, ltb, ◌==◌, if◌then◌else◌,
}
use chronus.Hh.Bytes.{put_uint64, int_ltb-small}
use chronus.Hh.Segment.{
  segment_full, seek_end_footer, write_bytes, write_uint64, set_current_size, set_size,
  append_block, append,
}
use chronus.Hh.Segment.Layout.{
  frames, head_size, size_limit, size_of, footer, image, Fits, length-put_uint64, frames-snoc,
  length-frames_snoc,
}
use chronus.Hh.Segment.Steps.{then-ok, seek_end_footer-ok, write_bytes-ok, write_uint64-ok}

-- The size of the head block once a block is appended: the first block starts a new head.
head_size-snoc :
    (todo : List (List ℕ)) (b : List ℕ)
    → All (λ c. 0 < length c) todo
    → (if head_size todo == 0 then length b else head_size todo) ≡ head_size (todo ++ b ∷ [])
head_size-snoc [] b h = refl
head_size-snoc (c ∷ cs) b h = ground arith

size_of-snoc :
    (done todo : List (List ℕ)) (b : List ℕ)
    → size_of done todo + length b + 8 ≡ size_of done (todo ++ b ∷ [])
size_of-snoc done todo b = omega (arith, length-frames_snoc todo b)

appended_size :
    (done todo : List (List ℕ)) (b : List ℕ)
    → size_of done todo + length b + 8 < 2 ^ 64
    → (size_of done todo + length b + 8) % 2 ^ 64 ≡ size_of done (todo ++ b ∷ [])
appended_size done todo b small = omega (arith, size_of-snoc done todo b)

appended_bytes :
    (done todo : List (List ℕ)) (b : List ℕ)
    → (((frames done ++ frames todo) ++ put_uint64 (length b)) ++ b) ++ footer done
      ≡ frames done ++ (frames (todo ++ b ∷ []) ++ footer done)
appended_bytes done todo b = simp (frames-snoc, append_assoc)

module _ (done todo : List (List ℕ)) (b : List ℕ) (offset max_size : ℕ) where
  append_block-ok :
      All (λ c. 0 < length c) todo
      → size_of done todo + length b + 8 < 2 ^ 64
      → append_block b (image done todo offset max_size) ≡ (
        ok tt,
        image done
            (todo ++ b ∷ [])
            (length
              (((((frames done ++ frames todo) ++ put_uint64 (length b)) ++ b) ++ footer done)))
            max_size,
      )
  unfolding append_block set_current_size set_size
  append_block-ok nonempty small =
      let size = size_of done todo in
      let pos = length (frames done) in
      let head = head_size todo in
      let front = frames done ++ frames todo in
      let sized = front ++ put_uint64 (length b) in
      let whole = (sized ++ b) ++ footer done in
      then-ok seek_end_footer _ _ _ (
        seek_end_footer-ok size offset pos head max_size _ front (footer done)
          (sym (append_assoc (frames done) (frames todo) (footer done))) (length-put_uint64 pos))
      ∙ then-ok (write_uint64 (length b)) _ _ _ (
          write_uint64-ok size (length front) pos head max_size _ front (footer done) (length b)
            (sym (append_assoc (frames done) (frames todo) (footer done))) refl
            (omega (arith, length-put_uint64 pos)))
      ∙ then-ok (write_bytes b) _ _ _ (
          write_bytes-ok size (length sized) pos head max_size sized sized [] b
            (sym (append-nil sized)) refl (omega arith))
      ∙ then-ok (write_uint64 pos) _ _ _ (
          write_uint64-ok size (length (sized ++ b)) pos head max_size (sized ++ b) (sized ++ b) []
            pos (sym (append-nil (sized ++ b))) refl (omega arith))
      ∙ then-ok (set_current_size _) _ _ _ refl
      ∙ rw (
        head_size-snoc todo b nonempty,
        appended_size done todo b small,
        appended_bytes done todo b,
      )

  -- A block that is neither empty nor longer than 2 ^ 61 bytes is refused exactly if the sizes so
  -- far and its own pass the maximum, and the segment is then as before. Otherwise it stands last
  -- of the blocks to be read.
  pub append_lem :
      Fits done todo max_size
      → 0 < length b
      → length b ≤ size_limit
      → append b (image done todo offset max_size) ≡ (
          if ltb max_size (size_of done todo + length b)
          then (err segment_full, image done todo offset max_size)
          else (
            ok tt,
            image done
                (todo ++ b ∷ [])
                (length
                  (((((frames done ++ frames todo) ++ put_uint64 (length b)) ++ b) ++ footer done)))
                max_size,
          ))
  unfolding append
  append_lem fits some_byte small =
      let room : size_of done todo + length b + 8 < 2 ^ 64 = omega (arith, fits.bounded) in
      let wrapped : (size_of done todo + length b) % 2 ^ 64 ≡ size_of done todo + length b =
        omega arith in
      let signed =
        int_ltb-small max_size (size_of done todo + length b) (omega (arith, fits.max_bounded))
          (omega (arith, fits.bounded)) in
      rw (wrapped, signed, append_block-ok fits.nonempty room)

  pub append-Fits :
      Fits done todo max_size
      → 0 < length b
      → ltb max_size (size_of done todo + length b) ≡ false
      → Fits done (todo ++ b ∷ []) max_size
  append-Fits fits some_byte room = record {
    nonempty = All-append _ todo (b ∷ []) fits.nonempty (some_byte, tt);
    bounded = ground (arith, size_of-snoc done todo b, fits.max_bounded);
    max_bounded = fits.max_bounded;
  }
