-- ===== src/X/CyclicBuffer/Dumped.antt =====
-- What Dump and Compare read of a cyclic buffer.
use mathlib.Core.Path.{subst}
use mathlib.Core.List.{append_assoc, append-nil}
use chronus.Base.{
  ℕ, zero, suc, ◌+◌, ◌-◌, ◌%◌, ◌^◌, ◌≤◌, ◌<◌, ◌≡◌, refl, sym, ap, ap₂, ◌∙◌, true, false, List, [],
  ◌∷◌, ◌++◌, ok, ◌>>=◌, length, length-append, drop-append, take-append_short, drop-append_short,
  take-whole, length-drop, length-replicate, take, take-append, drop, replicate, set, ltb, leb,
  arith, Bool-cases, inl, inr,
}
use chronus.Hh.Bytes.{int_ltb, int_ltb-small}
use chronus.X.CyclicBuffer.{
  CyclicBuffer, Dump, new_cyclic_buffer, read_next, dump_round, dump_loop, dump,
}
use chronus.X.CyclicBuffer.Contents.{Holds, Holds-Turns, length-Holds, read_next-next, set-middle}
use chronus.X.CyclicBuffer.Written.{IsFilled, write_all, concat, write_all_new, drop-append_long}

pub read :
    {buf : List ℕ} {pos y : ℕ} {l : List ℕ}
    → Holds buf pos (y ∷ l)
    → Holds buf (read_next (length buf) pos) (l ++ y ∷ [])
read {buf} {pos} {y} {l} holds =
    let turns = Holds-Turns holds in rw (read_next-next (length buf) pos turns.valid) turns.kept

-- The state of Dump's loop, where no byte is to be skipped any more.
copying :
    (n skip pos_write : ℕ) (buf : List ℕ) (pos : ℕ) (l done rest out : List ℕ)
    → Holds buf pos l
    → n ≤ length l
    → n ≤ length rest
    → int_ltb 0 skip ≡ false
    → pos_write ≡ length done
    → out ≡ done ++ rest
    → (d : Dump) × (dump_loop n buf
          (record { pos_read = pos; pos_write = pos_write; skip = skip; out = out })
        ≡ ok d)
      × (d.pos_write ≡ length done + n)
      × (d.out ≡ done ++ (take n l ++ drop n rest))
unfolding dump_loop dump_round
copying zero skip pos_write buf pos l done rest out holds fits room none_left at shape = (
  record { pos_read = pos; pos_write = pos_write; skip = skip; out = out },
  refl,
  omega (arith, at),
  shape,
)
copying (suc n) skip pos_write buf pos [] done rest out holds fits room none_left at shape =
    absurd (omega (arith, fits))
copying (suc n) skip pos_write buf pos l done [] out holds fits room none_left at shape =
    absurd (omega (arith, room))
copying (suc n) skip pos_write buf pos (y ∷ l) done (z ∷ rest) out holds fits room none_left at
      shape =
    let total = length-append done (z ∷ rest) in
    let inside : ltb pos_write (length out) ≡ true = rw (at, shape) (ground (arith, total)) in
    let stores : set out pos_write y ≡ (done ++ y ∷ []) ++ rest =
      rw (at, shape) (set-middle done z y rest ∙ sym (append_assoc done (y ∷ []) rest)) in
    let (d, ends, count, bytes) =
      copying n skip (pos_write + 1) buf (read_next (length buf) pos) (l ++ y ∷ []) (done ++ y ∷ [])
        rest (set out pos_write y) (read holds) (omega (arith, fits, length-append l (y ∷ [])))
        (omega (arith, room)) none_left (omega (arith, at, length-append done (y ∷ []))) stores in
    (
      d,
      rw (none_left, (Holds-Turns holds).read, inside) ends,
      omega (arith, count, length-append done (y ∷ [])),
      bytes
          ∙ append_assoc done (y ∷ []) (take n (l ++ y ∷ []) ++ drop n rest)
          ∙ ap (λ t. done ++ y ∷ (t ++ drop n rest))
              (take-append_short n l (y ∷ []) (omega (arith, fits))),
    )

skip_round :
    (k pos pos_write : ℕ) (buf out : List ℕ)
    → suc k < 2 ^ 63
    → dump_round buf (record { pos_read = pos; pos_write = pos_write; skip = suc k; out = out })
      ≡ ok (record {
        pos_read = read_next (length buf) pos;
        pos_write = pos_write;
        skip = k;
        out = out;
      })
unfolding dump_round
skip_round k pos pos_write buf out small =
    let more : int_ltb 0 (suc k) ≡ true =
      int_ltb-small 0 (suc k) (omega arith) small ∙ ground arith in
    let less : suc k - 1 ≡ k = omega arith in rw (more, less) refl

-- Rounds that skip turn the buffer.
skipping :
    (k n m pos_write : ℕ) (buf : List ℕ) (pos : ℕ) (l out : List ℕ)
    → m ≡ k + n
    → Holds buf pos l
    → k ≤ length l
    → k < 2 ^ 63
    → (pos' : ℕ) × (dump_loop m buf
          (record { pos_read = pos; pos_write = pos_write; skip = k; out = out })
        ≡ dump_loop n buf (record { pos_read = pos'; pos_write = pos_write; skip = 0; out = out }))
      × Holds buf pos' (drop k l ++ take k l)
unfolding dump_loop dump_round
skipping zero n m pos_write buf pos l out sum holds fits small = (
  pos,
  ap (λ m. dump_loop m buf (record { pos_read = pos; pos_write = pos_write; skip = 0; out = out }))
      (omega (arith, sum)),
  rw append-nil holds,
)
skipping (suc k) n zero pos_write buf pos l out sum holds fits small = absurd (omega (arith, sum))
skipping (suc k) n (suc m) pos_write buf pos [] out sum holds fits small =
    absurd (omega (arith, fits))
skipping (suc k) n (suc m) pos_write buf pos (y ∷ l) out sum holds fits small =
    let (pos', loops, turned) =
      skipping k n m pos_write buf (read_next (length buf) pos) (l ++ y ∷ []) out
        (omega (arith, sum)) (read holds) (omega (arith, fits, length-append l (y ∷ [])))
        (omega (arith, small)) in
    let short : k ≤ length l = omega (arith, fits) in
    let shape : drop k (l ++ y ∷ []) ++ take k (l ++ y ∷ []) ≡ drop k l ++ y ∷ take k l =
      ap₂ (λ a b. a ++ b) (drop-append_short k l (y ∷ []) short)
        (take-append_short k l (y ∷ []) short)
      ∙ append_assoc (drop k l) (y ∷ []) (take k l) in
    (
      pos',
      ap (λ o. o >>= λ d. dump_loop m buf d) (skip_round k pos pos_write buf out small) ∙ loops,
      rw (← shape) turned,
    )

signed : (a b : ℕ) → a ≤ b → b < 2 ^ 63 → int_ltb 0 ((a + 2 ^ 64 - b) % 2 ^ 64) ≡ false
unfolding int_ltb
signed a b h k = ground (arith, h, k)

-- What Dump gives, from the end of its loop.
module _ (c : CyclicBuffer) (out : List ℕ) where
  abbrev start : ℕ → Dump
  start skip = record { pos_read = c.pos; pos_write = 0; skip = skip; out = out }

  -- The int that the loop's count of bytes to skip starts with.
  abbrev to_skip : ℕ
  to_skip = (length c.buf + 2 ^ 64 - c.cnt) % 2 ^ 64

  finish :
      (d : Dump) (m : ℕ) (bytes : List ℕ)
      → length c.buf ≤ length out
      → dump_loop (length c.buf) c.buf (start to_skip) ≡ ok d
      → d.pos_write ≡ m
      → d.out ≡ bytes
      → dump c out ≡ ok (m, bytes)
  unfolding dump
  finish d m bytes room ends count shape =
      let enough : ltb (length out) (length c.buf) ≡ false = ground (arith, room) in
      rw (enough, ends, count, shape) refl

  -- Bytes of the buffer that were never written are skipped.
  dump_part :
      (k m n : ℕ) (l : List ℕ)
      → IsFilled c (k + m) l n
      → n ≡ m
      → k + m < 2 ^ 63
      → k + m ≤ length out
      → dump c out ≡ ok (m, drop k l ++ drop m out)
  dump_part k m n l filled part small room =
      let total = length-Holds filled.held ∙ filled.sized in
      let skip_is : to_skip ≡ k = omega (arith, filled.sized, filled.counted, part, small) in
      let (pos, loops, turned) =
        skipping k m (length c.buf) 0 c.buf c.pos l out filled.sized filled.held
          (omega (arith, total)) (omega (arith, small)) in
      let copies : length (drop k l) ≡ m = omega (arith, length-drop k l, total) in
      let (d, ends, count, shape) =
        copying m 0 0 c.buf pos (drop k l ++ take k l) [] out out turned
          (omega (arith, length-append (drop k l) (take k l), copies)) (omega (arith, room))
          (int_ltb-small 0 0 (omega arith) (omega arith)) refl refl in
      finish d m (drop k l ++ drop m out) (omega (arith, filled.sized, room))
        (ap (λ s. dump_loop (length c.buf) c.buf (start s)) skip_is ∙ loops ∙ ends)
        (omega (arith, count))
        (shape ∙ ap (λ t. t ++ drop m out) (take-append m (drop k l) (take k l) copies))

  -- A buffer that was filled is copied as a whole.
  dump_whole :
      (size n : ℕ) (l : List ℕ)
      → IsFilled c size l n
      → size ≤ n
      → n < 2 ^ 63
      → size ≤ length out
      → dump c out ≡ ok (size, l ++ drop size out)
  dump_whole size n l filled whole small room =
      let total = length-Holds filled.held ∙ filled.sized in
      let none_left : int_ltb 0 to_skip ≡ false =
        signed (length c.buf) c.cnt (omega (arith, filled.sized, filled.counted, whole))
          (omega (arith, filled.counted, small)) in
      let (d, ends, count, shape) =
        copying (length c.buf) to_skip 0 c.buf c.pos l [] out out filled.held
          (omega (arith, total, filled.sized)) (omega (arith, filled.sized, room)) none_left refl
          refl in
      finish d size (l ++ drop size out) (omega (arith, filled.sized, room)) ends
        (omega (arith, count, filled.sized))
        (shape
          ∙ ap₂ (λ a m. a ++ drop m out) (take-whole (length c.buf) l (length-Holds filled.held))
              filled.sized)

-- The last bytes of all the writes, as many as there is room for.
abbrev pub newest : ℕ → List (List ℕ) → List ℕ
newest capacity writes = drop (length (concat writes) - capacity) (concat writes)

module _ (writes : List (List ℕ)) (capacity : ℕ) where
  abbrev pub all : List ℕ
  all = concat writes

  -- The last bytes of zeros and then all the writes, as many as the capacity.
  abbrev pub held : List ℕ
  held = drop (length all) (replicate capacity 0 ++ all)

  -- A buffer that was filled holds the newest bytes.
  pub held-newest : capacity ≤ length all → held ≡ newest capacity writes
  held-newest whole =
      let zeros = length-replicate {A = ℕ} capacity 0 in
      drop-append_long (length all) (replicate capacity 0) all (omega (arith, zeros, whole))
      ∙ ap (λ n. drop (length all - n) all) zeros

  -- One that was not holds zeros before all bytes.
  drop-held : length all ≤ capacity → drop (capacity - length all) held ≡ newest capacity writes
  drop-held part =
      let zeros = length-replicate {A = ℕ} capacity 0 in
      let none_left : length all - capacity ≡ 0 = omega (arith, part) in
      ap (drop (capacity - length all))
        (drop-append_short (length all) (replicate capacity 0) all (omega (arith, zeros, part)))
      ∙ drop-append (capacity - length all) (drop (length all) (replicate capacity 0)) all
          (omega (arith, length-drop (length all) (replicate {A = ℕ} capacity 0), zeros))
      ∙ ap (λ n. drop n all) (sym none_left)

  -- Dump, after any writes to a new buffer, into a slice with room for the capacity, gives the newest
  -- bytes that were written, in their order, as many as the capacity or all that there are; the rest of
  -- the slice stays. All sizes are such as an int holds.
  pub dump-newest :
      (out : List ℕ)
      → 0 < capacity
      → capacity < 2 ^ 63
      → length (concat writes) < 2 ^ 63
      → capacity ≤ length out
      → (write_all writes (new_cyclic_buffer capacity) >>= λ c. dump c out)
        ≡ ok (
          length (newest capacity writes),
          newest capacity writes ++ drop (length (newest capacity writes)) out,
        )
  dump-newest out positive small small_all room =
      let (c, done, filled) = write_all_new writes capacity positive (omega (arith, small_all)) in
      let measure = length-drop (length all - capacity) all in
      ap (λ o. o >>= λ c. dump c out) done ∙ elim (Bool-cases (leb capacity (length all))) [
        | inl whole ↦
            let le : capacity ≤ length all = ground (arith, whole) in
            let size : capacity ≡ length (newest capacity writes) = omega (arith, measure, le) in
            dump_whole c out capacity (length all) held filled le small_all room
            ∙ ap₂ (λ l n. ok (n, l ++ drop n out)) (held-newest le) size
        | inr part ↦
            let le : length all ≤ capacity = ground (arith, part) in
            let size : length all ≡ length (newest capacity writes) = omega (arith, measure, le) in
            let sum : capacity ≡ (capacity - length all) + length all = omega (arith, le) in
            dump_part c out (capacity - length all) (length all) (length all) held
              (subst (λ n. IsFilled c n held (length all)) sum filled) refl
              (omega (arith, small, le)) (omega (arith, room, le))
            ∙ ap₂ (λ l n. ok (n, l ++ drop n out)) (drop-held le) size
      ]
