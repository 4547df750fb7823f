-- ===== src/Hh/Queue/Append.antt =====
-- What Append does to the segments.
use mathlib.Core.Path.{fun_ext}
use chronus.Base.{
  ℕ, ◌+◌, ◌%◌, ◌^◌, ◌≤◌, ◌<◌, ◌≡◌, refl, ap, ◌∙◌, Bool, true, false, List, [], ◌∷◌, ◌++◌, some,
  Outcome, ok, err, arith, length, ltb, if◌then◌else◌,
}
use chronus.Hh.Bytes.{put_uint64, int_ltb}
use chronus.Hh.Segment
use chronus.Hh.Segment.{Error, Segment, queue_full, segment_full, new_segment}
use chronus.Hh.Segment.Layout.{frames, size_limit, size_of, footer, image, Fits}
use chronus.Hh.Segment.Writes.{append_lem}
use chronus.Hh.Segment.Reopen.{new_segment-empty}
use chronus.Hh.Queue.{
  Queue, update, on_segment, disk_usage, next_segment_id, add_segment, add_opened, retry,
  append_to_new, after_append, append_at, append,
}

-- Is there room in the queue for the block?
abbrev pub is_full : List ℕ → Queue → Bool
is_full b q = int_ltb q.max_size ((disk_usage q + length b) % 2 ^ 64)

-- Where the file's offset stands after a block was appended.
abbrev pub append_offset : List (List ℕ) → List (List ℕ) → List ℕ → ℕ
append_offset done todo b =
    length ((((frames done ++ frames todo) ++ put_uint64 (length b)) ++ b) ++ footer done)

-- The queue once a new segment has become the tail.
abbrev pub rolled : Queue → Segment → Queue
rolled q s =
    let id = next_segment_id q.files in
    record q {
      tail = some id;
      segments = q.segments ++ id ∷ [];
      store = update q.store id s;
      files = q.files ++ id ∷ [];
    }

Fits-empty : (max_size : ℕ) → max_size ≤ size_limit → Fits [] [] max_size
Fits-empty max_size h = record { nonempty = tt; bounded = omega arith; max_bounded = h }

pub add_segment-ok :
    (q : Queue)
    → add_segment q ≡ (
      ok (next_segment_id q.files),
      record (rolled q (image [] [] 8 q.max_segment_size)) { tail = q.tail },
    )
unfolding add_segment add_opened
add_segment-ok q =
    ap (λ r. add_opened (next_segment_id q.files) r q) (new_segment-empty q.max_segment_size)

pub update_self : (store : ℕ → Segment) (p : ℕ) (s : Segment) → update store p s p ≡ s
update_self store p s = ground arith

pub update_twice :
    (store : ℕ → Segment) (p : ℕ) (s t : Segment) → update (update store p s) p t ≡ update store p t
update_twice store p s t = fun_ext (λ q. ground arith)

pub update_same :
    (store : ℕ → Segment) (p : ℕ) (s : Segment) → store p ≡ s → update store p s ≡ store
update_same store p s h = fun_ext (λ q. ground (arith, h))

-- The queue with another segment behind a pointer.
abbrev pub with_segment : Queue → ℕ → Segment → Queue
with_segment q p s = record q { store = update q.store p s }

-- What a method on the segment behind a pointer hands on.
abbrev pub put : {A : Type 0} → Queue → ℕ → Outcome Error A × Segment → Outcome Error A × Queue
put q p r = (r.0, with_segment q p r.1)

-- A method on the segment behind a pointer, from what it does to the segment.
pub on_segment-ok :
    {A : Type 0} (p : ℕ) (m : Segment.M A) (q : Queue) (s : Segment)
    (result : Outcome Error A × Segment)
    → q.store p ≡ s
    → m s ≡ result
    → on_segment p m q ≡ put q p result
on_segment-ok p m q s result at_p runs = ap (put q p) (ap m at_p ∙ runs)

rolled_twice :
    (q : Queue) (s t : Segment)
    → record (rolled q s) { store = update (rolled q s).store (next_segment_id q.files) t }
      ≡ rolled q t
rolled_twice q s t =
    ap (λ store. record (rolled q s) { store = store })
      (update_twice q.store (next_segment_id q.files) s t)

roll_branches :
    (q : Queue) (s t : Segment) (c : Bool)
    → put (rolled q s) (next_segment_id q.files) (if c then (err segment_full, s) else (ok tt, t))
      ≡ (if c then (err segment_full, rolled q s) else (ok tt, rolled q t))
roll_branches q s t true = ap (λ r. (err segment_full, r)) (rolled_twice q s s)
roll_branches q s t false = ap (λ r. (ok tt, r)) (rolled_twice q s t)

-- The new tail takes the block if it fits into an empty segment; if not, the new segment stays.
append_to_new-ok :
    (b : List ℕ) (q : Queue)
    → q.max_segment_size ≤ size_limit
    → 0 < length b
    → length b ≤ size_limit
    → append_to_new b q ≡ (
        if ltb q.max_segment_size (8 + length b)
        then (err segment_full, rolled q (image [] [] 8 q.max_segment_size))
        else (ok tt, rolled q (image [] (b ∷ []) (append_offset [] [] b) q.max_segment_size)))
unfolding append_to_new retry
append_to_new-ok b q h some_byte small =
    let id = next_segment_id q.files in
    let m = q.max_segment_size in
    let fresh = image [] [] 8 m in
    ap (retry b) (add_segment-ok q)
    ∙ on_segment-ok id (Segment.append b) (rolled q fresh) fresh _ (update_self q.store id fresh)
        (append_lem [] [] b 8 m (Fits-empty m h) some_byte small)
    ∙ roll_branches q fresh _ (ltb m (8 + length b))

tail_branches :
    (b : List ℕ) (q : Queue) (t : ℕ) (s s' : Segment) (c : Bool)
    → q.store t ≡ s
    → (let result : Outcome Error (Unit {0}) × Segment =
          if c then (err segment_full, s) else (ok tt, s') in
        after_append b result.0 (with_segment q t result.1))
      ≡ (if c then append_to_new b q else (ok tt, with_segment q t s'))
unfolding after_append
tail_branches b q t s s' true h =
    ap (λ store. append_to_new b (record q { store = store })) (update_same q.store t s h)
tail_branches b q t s s' false h = refl

-- For a tail that holds blocks and a block that is neither empty nor longer than 2 ^ 61 bytes, with
-- maximal sizes up to 2 ^ 61: a full queue refuses the block and stays as it is; a tail with room
-- takes the block behind its own; otherwise a new segment becomes the tail, and takes the block
-- unless the block does not fit into an empty segment either, which is reported.
pub append_exact :
    (b : List ℕ) (q : Queue) (t : ℕ) (done todo : List (List ℕ)) (offset m : ℕ)
    → q.tail ≡ some t
    → q.store t ≡ image done todo offset m
    → Fits done todo m
    → q.max_segment_size ≤ size_limit
    → 0 < length b
    → length b ≤ size_limit
    → append b q ≡ (
        if is_full b q
        then (err queue_full, q)
        else if ltb m (size_of done todo + length b)
        then (if ltb q.max_segment_size (8 + length b)
            then (err segment_full, rolled q (image [] [] 8 q.max_segment_size))
            else (ok tt, rolled q (image [] (b ∷ []) (append_offset [] [] b) q.max_segment_size)))
        else (ok tt, with_segment q t (image done (todo ++ b ∷ []) (append_offset done todo b) m)))
unfolding append append_at
append_exact b q t done todo offset m tail at_t fits h some_byte small =
    let c = ltb m (size_of done todo + length b) in
    let from_tail =
      ap (λ r. after_append b r.0 r.1)
        (on_segment-ok t (Segment.append b) q _ _ at_t
          (append_lem done todo b offset m fits some_byte small))
      ∙ tail_branches b q t _ _ c at_t
      ∙ ap
          (λ r. if c then r else (
            ok tt,
            with_segment q t (image done (todo ++ b ∷ []) (append_offset done todo b) m),
          ))
          (append_to_new-ok b q h some_byte small) in
    ap (λ p. append_at b p q) tail
    ∙ ap (λ r. if is_full b q then (err queue_full, q) else r) from_tail
