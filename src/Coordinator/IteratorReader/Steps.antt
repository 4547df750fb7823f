-- ===== src/Coordinator/IteratorReader/Steps.antt =====
-- What one Read of an iteratorReader does.
use chronus.Base.{
  ℕ, ◌+◌, ◌-◌, ◌^◌, min, ◌≤◌, ◌<◌, ◌≡◌, refl, sym, ap, ap₂, ◌∙◌, Bool, true, false, List, [], ◌∷◌,
  ◌++◌, Option, none, ok, ◌>>=◌, length, length-append, length-take, length-drop, take, take-append,
  take-append_short, take-take-drop, drop, drop-append_short, ltb, leb, ◌==◌, if◌then◌else◌, arith,
  Bool-cases, inl, inr,
}
use chronus.X.Math.{min_of, min_of-pair}
use chronus.X.CyclicBuffer.{CyclicBuffer, new_cyclic_buffer, dump, write, compare}
use chronus.X.CyclicBuffer.Written.{write_all, concat, write_all_new}
use chronus.X.CyclicBuffer.Dumped.{held, held-newest, dump-newest}
use chronus.X.CyclicBuffer.Compared.{equal, compare-held}
use chronus.Coordinator.IteratorReader.{
  Reader, ReadError, Answer, shift_buffer, answer, read_some, read,
}
use chronus.Coordinator.IteratorReader.Shifted.{shift_buffer_lem}
use chronus.Coordinator.IteratorReader.Chunks.{delivered, write_all-append, concat-append}

-- A reader that has read `s` and not met the terminator: the chunks of `s` are in its buffer.
pub record IsReading (r : Reader) (s : List ℕ) : Type 0 where
  pub chunks : List (List ℕ)
  pub whole : s ≡ concat chunks
  pub stored : write_all chunks (new_cyclic_buffer (length r.terminator)) ≡ ok r.judger
  pub counted : r.bytes ≡ length s
  pub sized : length r.buf ≡ length r.terminator

-- Does the list end with the terminator?
abbrev pub ends_with : List ℕ → List ℕ → Bool
ends_with term l =
    if leb (length term) (length l) then equal term (drop (length l - length term) l) else false

-- What one Read does that reads some bytes: it gives the bytes up to as many before the end as the
-- terminator has, and is the last one exactly where all bytes so far end with the terminator.
pub record Step {E : Type 0} (r : Reader) (s got : List ℕ) (a : Answer E × Reader) : Type 0 where
  pub same : a.1.terminator ≡ r.terminator
  pub reading : IsReading a.1 (s ++ got)
  pub gives :
      take (length s - length r.terminator) s ++ take a.0.n a.0.slice
      ≡ take (length (s ++ got) - length r.terminator) (s ++ got)
  pub ends : a.1.terminated ≡ ends_with r.terminator (s ++ got)

neither :
    {A : Type 0} (a b : Bool) (x y z : A)
    → a ≡ false
    → b ≡ false
    → (if a then x else (if b then y else z)) ≡ z
neither a b x y z first second = rw (first, second) refl

module _ {E : Type 0} (r : Reader) (s got p : List ℕ) (error : Option (ReadError E))
    (reading : IsReading r s) (some_byte : 0 < length got) (room : length got ≤ length p)
    (term : 0 < length r.terminator) (short : length r.terminator < 2 ^ 63)
    (small : length s + length got < 2 ^ 63) where
  abbrev t : ℕ
  t = length r.terminator

  abbrev older : List ℕ
  older = drop (length s - t) s

  abbrev slice : List ℕ
  slice = got ++ drop (length got) p

  abbrev chunks' : List (List ℕ)
  chunks' = reading.chunks ++ got ∷ []

  whole' : s ++ got ≡ concat chunks'
  whole' = sym (concat-append reading.chunks got ∙ ap (λ l. l ++ got) (sym reading.whole))

  length-slice : length slice ≡ length p
  length-slice =
      omega (arith, length-append got (drop (length got) p), length-drop (length got) p, room)

  dumped : dump r.judger r.buf ≡ ok (length older, older ++ drop (length older) r.buf)
  dumped =
      let total = ap length reading.whole in
      sym (ap (λ o. o >>= λ c. dump c r.buf) reading.stored)
      ∙ dump-newest reading.chunks t r.buf term short (omega (arith, total, small))
          (omega (arith, reading.sized))
      ∙ sym (
          ap
            (λ l. ok (
              length (drop (length l - t) l),
              drop (length l - t) l ++ drop (length (drop (length l - t) l)) r.buf,
            ))
            reading.whole)

  stored' :
      (c : CyclicBuffer) × (write got r.judger ≡ ok c)
      × (write_all chunks' (new_cyclic_buffer t) ≡ ok c)
  stored' =
      let total = ap length whole' in
      let (c, done, filled) =
        write_all_new chunks' t term (omega (arith, total, length-append s got, small)) in
      let split = write_all-append reading.chunks got (new_cyclic_buffer t) in
      (c, sym (ap (λ o. o >>= λ c'. write got c') reading.stored) ∙ sym split ∙ done, done)

  judged :
      (c : CyclicBuffer)
      → write_all chunks' (new_cyclic_buffer t) ≡ ok c
      → compare c r.terminator ≡ ok (equal r.terminator (held chunks' t))
  judged c done =
      let total = ap length whole' in
      sym (ap (λ o. o >>= λ c. compare c r.terminator) done)
      ∙ compare-held chunks' t r.terminator term (omega (arith, total, length-append s got, small))

  -- The part of the slice that is given.
  gives_bytes :
      (n : ℕ)
      → n ≤ length got
      → t ≤ length s + length got
      → length s - t + n ≡ length s + length got - t
      → take (length s - t) s
          ++ take n (
              shift_buffer slice (
                take
                  (min_of (length older) (length got ∷ []))
                  (older ++ drop (length older) r.buf)))
        ≡ take (length (s ++ got) - t) (s ++ got)
  gives_bytes n few past sum =
      let k = min (length older) (length got) in
      let header = take k older in
      let size : length header ≡ k = omega (arith, length-take k older) in
      let shape : take (min_of (length older) (length got ∷ []))
            (older ++ drop (length older) r.buf)
          ≡ header =
        ap (λ m. take m (older ++ drop (length older) r.buf))
          (min_of-pair (length older) (length got))
        ∙ take-append_short k older (drop (length older) r.buf) (omega arith) in
      let shifted = shift_buffer_lem slice header (omega (arith, size, length-slice, room)) in
      let total = length-append s got in
      ap (λ h. take (length s - t) s ++ take n (shift_buffer slice h)) shape
      ∙ ap (λ l. take (length s - t) s ++ take n l) shifted
      ∙ ap (λ l. take (length s - t) s ++ l)
          (delivered n k (length slice - length header) older got (drop (length got) p) few refl
            (omega (arith, size, length-slice, room, few)))
      ∙ ap₂ (λ a b. a ++ take n b) (sym (take-append_short (length s - t) s got (omega arith)))
          (sym (drop-append_short (length s - t) s got (omega arith)))
      ∙ take-take-drop (length s - t) n (s ++ got)
      ∙ ap (λ m. take m (s ++ got)) (omega (arith, sum, total))

  -- The reader after the bytes are taken in.
  abbrev after : Reader
  after = record r {
    buf = older ++ drop (length older) r.buf;
    judger = stored'.0;
    bytes = r.bytes + length got;
  }

  after-IsReading : (ended : Bool) → IsReading (record after { terminated = ended }) (s ++ got)
  after-IsReading ended =
      let past = length-drop (length s - t) s in
      record {
        chunks = chunks';
        whole = whole';
        stored = stored'.2;
        counted = omega (arith, reading.counted, length-append s got);
        sized =
            length-append older (drop (length older) r.buf)
            ∙ omega (arith, length-drop (length older) r.buf, reading.sized, past);
      }

  abbrev verdict : Bool
  verdict = equal r.terminator (held chunks' t)

  late : Answer E × Reader
  late =
      answer r.bytes (length got) error
        (shift_buffer slice
          (take (min_of (length older) (length got ∷ [])) (older ++ drop (length older) r.buf)))
        after verdict

  early : Answer E × Reader
  early = (record { n = 0; error = none; slice = slice }, after)

  takes_in :
      read_some r slice (length got) error
      ≡ ok (if ltb (r.bytes + length got) t then early else late)
  unfolding read_some early late
  takes_in =
      let (c, writes, done) = stored' in
      let front : take (length got) slice ≡ got =
        take-append (length got) got (drop (length got) p) refl in
      rw (dumped, front, writes, judged c done)
        (elim (Bool-cases (ltb (r.bytes + length got) t)) [
          | inl few ↦ rw few refl
          | inr enough ↦ rw enough refl
        ])

  early-Step : r.terminated ≡ false → length s + length got < t → Step r s got early
  unfolding early
  early-Step going few =
      let total = length-append s got in
      record {
        same = refl;
        reading = after-IsReading r.terminated;
        gives =
            ap (λ n. take n s ++ []) {x = length s - t} {y = 0} (omega (arith, few))
            ∙ sym (
                ap (λ n. take n (s ++ got)) {x = length (s ++ got) - t} {y = 0}
                  (omega (arith, few, total)));
        ends =
            let short_ : leb t (length (s ++ got)) ≡ false = ground (arith, few, total) in
            rw short_ going;
      }

  late-Step : t ≤ length s + length got → Step r s got late
  unfolding late answer
  late-Step enough =
      let total = length-append s got in
      let n =
        (if ltb r.bytes (length (older ++ drop (length older) r.buf))
          then length got - (length (older ++ drop (length older) r.buf) - r.bytes)
          else length got) in
      let sized = (after-IsReading true).sized in
      let count = reading.counted in
      let few : n ≤ length got = ground (arith, sized, count) in
      let sum : length s - t + n ≡ length s + length got - t =
        ground (arith, sized, count, enough) in
      record {
        same = refl;
        reading = after-IsReading verdict;
        gives = gives_bytes n few enough sum;
        ends =
            let long_ : leb t (length (s ++ got)) ≡ true = ground (arith, enough, total) in
            let newest =
              held-newest chunks' t (omega (arith, enough, total, ap length whole'))
              ∙ sym (ap (λ l. drop (length l - t) l) whole') in
            rw long_ (ap (equal r.terminator) newest);
      }

  goes_on : r.terminated ≡ false → read r p (got, error) ≡ read_some r slice (length got) error
  unfolding read
  goes_on going =
      let bytes? : (length got == 0) ≡ false = ground (arith, some_byte) in
      neither r.terminated (length got == 0) _ _ (read_some r slice (length got) error) going bytes?

  -- A Read of a reader that goes on.
  pub read-Step :
      r.terminated ≡ false
      → (a : Answer E × Reader) × (read r p (got, error) ≡ ok a) × Step r s got a
  read-Step going =
      let count = reading.counted in
      let starts = goes_on going ∙ takes_in in
      elim (Bool-cases (ltb (r.bytes + length got) t)) [
        | inl few ↦ (
          early,
          starts ∙ ap (λ b. ok (if b then early else late)) few,
          early-Step going (ground (arith, few, count)),
        )
        | inr enough ↦ (
          late,
          starts ∙ ap (λ b. ok (if b then early else late)) enough,
          late-Step (ground (arith, enough, count)),
        )
      ]
