-- ===== src/Hh/Queue/Purge.antt =====
-- What PurgeOlderThan does to a queue of one segment, and what Append does then.
use chronus.Base.{
  ℕ, ◌≡◌, ◌≢◌, refl, ap, ◌∙◌, false, List, [], ◌∷◌, ◌++◌, some, none, ok, err, length, ◌==◌,
  if◌then◌else◌,
}
use chronus.Hh.Disk.{File}
use chronus.Hh.Segment
use chronus.Hh.Segment.{Segment, not_open, queue_full}
use chronus.Hh.Segment.Layout.{image}
use chronus.Hh.Queue.{
  Queue, update, on_segment, next_segment_id, remove_file, after_append, append_at, append,
  close_head, trim_to, trim_head, trim_grown, purge_round, add_segment,
}
use chronus.Hh.Queue.Append.{
  is_full, rolled, update_self, update_same, add_segment-ok, on_segment-ok,
}
use chronus.Hh.Queue.Stuck.{update_other}

abbrev pub closed : Segment → Segment
closed s = record s { file = none }

close-ok : (s : Segment) (f : File) → s.file ≡ some f → Segment.close s ≡ (ok tt, closed s)
unfolding Segment.close
close-ok s f h = rw h refl

-- The queue after its only segment was purged: the pointer to the tail is as it was.
abbrev pub purged : Queue → ℕ → Segment → Queue
purged q h s =
    let id = next_segment_id q.files in
    record q {
      head = some id;
      segments = id ∷ [];
      store = update (update q.store id (image [] [] 8 q.max_segment_size)) h (closed s);
      files = remove_file h (q.files ++ id ∷ []);
    }

module _ (q : Queue) (h : ℕ) (s : Segment) (f : File) where
  purge_round-single :
      q.segments ≡ h ∷ []
      → q.store h ≡ s
      → s.file ≡ some f
      → h ≢ next_segment_id q.files
      → purge_round h q ≡ (ok tt, purged q h s)
  unfolding purge_round trim_grown trim_head trim_to close_head
  purge_round-single single at_h opened other =
      let id = next_segment_id q.files in
      let fresh = image [] [] 8 q.max_segment_size in
      let grown = record (rolled q fresh) { tail = q.tail } in
      let moved = record grown { segments = id ∷ [] } in
      ap (λ l. if length l == 1 then trim_grown h (add_segment q) else trim_head h q) single
      ∙ ap (trim_grown h) (add_segment-ok q)
      ∙ ap (λ l. trim_to h (l ++ id ∷ []) grown) single
      ∙ ap (close_head h id) (
          on_segment-ok h Segment.close moved s _ (update_other q.store id h fresh other ∙ at_h)
            (close-ok s f opened))

  -- A queue of one segment, which is the tail and open and whose number the next new segment does
  -- not get, is purged without an error, and from then on Append reports success for every block
  -- for which the queue has room and stores it nowhere: the queue is as it was before.
  pub append_lost :
      (b : List ℕ)
      → q.tail ≡ some h
      → q.segments ≡ h ∷ []
      → q.store h ≡ s
      → s.file ≡ some f
      → h ≢ next_segment_id q.files
      → is_full b (purged q h s) ≡ false
      → (purge_round h q ≡ (ok tt, purged q h s))
        × (append b (purged q h s) ≡ (ok tt, purged q h s))
  unfolding append append_at after_append Segment.append
  append_lost b tail single at_h opened other free =
      let q' = purged q h s in
      let here =
        update_self (update q.store (next_segment_id q.files) (image [] [] 8 q.max_segment_size)) h
          (closed s) in
      (
        purge_round-single single at_h opened other,
        ap (λ p. append_at b p q') tail
            ∙ ap
                (λ c.
                  if c
                  then (err queue_full, q')
                  else after_append b (on_segment h (Segment.append b) q').0
                      (on_segment h (Segment.append b) q').1)
                free
            ∙ ap (λ r. after_append b r.0 r.1)
                (on_segment-ok h (Segment.append b) q' (closed s) (err not_open, closed s) here
                  refl)
            ∙ ap (λ store. (ok tt, record q' { store = store }))
                (update_same q'.store h (closed s) here),
      )
