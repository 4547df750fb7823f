-- ===== src/Hh/Queue/Advances.antt =====
-- What Advance does, within a segment and from one segment to the next.
use chronus.Base.{ℕ, ◌+◌, ◌≡◌, refl, ap, ◌∙◌, List, [], ◌∷◌, ◌++◌, some, ok, length}
use chronus.Hh.Segment
use chronus.Hh.Segment.{Segment, eof}
use chronus.Hh.Segment.Layout.{frames, image, Fits}
use chronus.Hh.Segment.Advance.{advance_last, advance_next}
use chronus.Hh.Queue.{
  Queue, update, remove_file, close_head, trim_to, trim_head, after_advance, advance_at, advance,
}
use chronus.Hh.Queue.Append.{with_segment, update_self, update_twice, on_segment-ok}
use chronus.Hh.Queue.Purge.{closed}

-- Where the file's offset stands after the head block was passed.
abbrev pub passed_offset : List (List ℕ) → List ℕ → ℕ
passed_offset done b = length (frames (done ++ b ∷ [])) + 8

-- The queue that goes on with the segment `next`.
abbrev pub trimmed : Queue → ℕ → Segment → ℕ → List ℕ → Queue
trimmed q h s next rest = record q {
  head = some next;
  segments = next ∷ rest;
  store = update q.store h (closed s);
  files = remove_file h q.files;
}

module _ (q : Queue) (h : ℕ) (done : List (List ℕ)) (b : List ℕ) (offset m : ℕ) where
  -- Where the head segment holds another block behind its head block, the head block is passed, the
  -- next one is the head, and nothing else changes.
  pub advance_within :
      (c : List ℕ) (cs : List (List ℕ))
      → q.head ≡ some h
      → q.store h ≡ image done (b ∷ c ∷ cs) offset m
      → Fits done (b ∷ c ∷ cs) m
      → advance q
        ≡ (ok tt, with_segment q h (image (done ++ b ∷ []) (c ∷ cs) (passed_offset done b) m))
  unfolding advance advance_at after_advance
  advance_within c cs head at_h fits =
      ap (λ p. advance_at p q) head
      ∙ ap (λ r. after_advance h r.0 r.1)
          (on_segment-ok h Segment.advance q _ _ at_h (advance_next done b offset m c cs fits))

  -- Past the last block of the head segment, where another segment follows, the head segment is
  -- closed, its file removed, and the next segment is the head.
  pub advance_across :
      (next : ℕ) (rest : List ℕ)
      → q.head ≡ some h
      → q.segments ≡ h ∷ next ∷ rest
      → q.store h ≡ image done (b ∷ []) offset m
      → Fits done (b ∷ []) m
      → advance q
        ≡ (ok tt, trimmed q h (image (done ++ b ∷ []) [] (passed_offset done b) m) next rest)
  unfolding advance advance_at after_advance trim_head trim_to close_head Segment.close
  advance_across next rest head segments at_h fits =
      let drained = image (done ++ b ∷ []) [] (passed_offset done b) m in
      let q' = record (with_segment q h drained) { segments = next ∷ rest } in
      ap (λ p. advance_at p q) head
      ∙ ap (λ r. after_advance h r.0 r.1)
          (on_segment-ok h Segment.advance q _ _ at_h (advance_last done b offset m fits))
      ∙ ap (λ l. trim_to h l (with_segment q h drained)) segments
      ∙ ap (close_head h next) (
          on_segment-ok h Segment.close q' drained (ok tt, closed drained)
            (update_self q.store h drained) refl)
      ∙ ap
          (λ store. (
            ok tt,
            record q {
              head = some next;
              segments = next ∷ rest;
              store = store;
              files = remove_file h q.files;
            },
          ))
          (update_twice q.store h drained (closed drained))
