-- ===== src/X/CyclicBuffer/Compared.antt =====
-- What Compare tells of the bytes that were written.
use chronus.Base.{
  ℕ, ◌+◌, ◌^◌, ◌≤◌, ◌<◌, ◌≡◌, refl, ap, ◌∙◌, ◌⊎◌, Bool, true, false, List, [], ◌∷◌, ◌++◌, ok, ◌>>=◌,
  length, length-zero, length-append, take, take-append_short, take-whole, leb, ◌==◌, if◌then◌else◌,
  arith, Bool-cases, inl, inr,
}
use chronus.X.CyclicBuffer.{CyclicBuffer, Run, new_cyclic_buffer, compare_from, compare}
use chronus.X.CyclicBuffer.Contents.{
  Holds, Holds-Turns, length-Holds, nonempty-Holds, next, read_next-next,
}
use chronus.X.CyclicBuffer.Written.{IsFilled, write_all, concat, write_all_new}
use chronus.X.CyclicBuffer.Dumped.{held}

-- Are the two lists the same?
abbrev pub equal : List ℕ → List ℕ → Bool
equal [] [] = true
equal (x ∷ xs) (y ∷ ys) = if x == y then equal xs ys else false
equal xs ys = false

differ : (xs ys : List ℕ) → (length ys == length xs) ≡ false → equal xs ys ≡ false
differ [] [] h = cc
differ [] (y ∷ ys) h = refl
differ (x ∷ xs) [] h = refl
differ (x ∷ xs) (y ∷ ys) h = elim (Bool-cases (x == y)) [
  | inl same ↦ rw same (differ xs ys (ground (arith, h)))
  | inr apart ↦ rw apart refl
]

-- The position `i` steps after the start, in a buffer of the size.
abbrev IsTurned : ℕ → ℕ → ℕ → ℕ → Type 0
IsTurned size start i pos = (pos ≡ start + i) ⊎ (pos + size ≡ start + i)

next-IsTurned :
    (size start i pos : ℕ)
    → pos < size
    → start < size
    → i < size
    → IsTurned size start i pos
    → IsTurned size start (i + 1) (next size pos)
next-IsTurned size start i pos inside begins early turned = elim (Bool-cases (leb size (pos + 1))) [
  | inl last ↦
      let end_ : size ≤ pos + 1 = ground (arith, last) in
      rw last (elim turned [
        | inl same ↦ inr (omega (arith, same, end_, inside))
        | inr around ↦ absurd (omega (arith, around, end_, inside, begins, early))
      ])
  | inr more ↦ rw more (elim turned [
    | inl same ↦ inl (omega (arith, same))
    | inr around ↦ inr (omega (arith, around))
  ])
]

compare_from-equal :
    (bs : List ℕ) (buf : List ℕ) (start i pos : ℕ) (l : List ℕ)
    → Holds buf pos l
    → length bs + i ≡ length buf
    → start < length buf
    → IsTurned (length buf) start i pos
    → compare_from buf start bs pos ≡ ok (equal bs (take (length bs) l))
unfolding compare_from
compare_from-equal [] buf start i pos l holds left begins turned = refl
compare_from-equal (b ∷ bs) buf start i pos [] holds left begins turned =
    absurd (omega (arith, nonempty-Holds holds))
compare_from-equal (b ∷ bs) buf start i pos (y ∷ l) holds left begins turned =
    let turns = Holds-Turns holds in
    let goes = read_next-next (length buf) pos turns.valid in
    let after =
      next-IsTurned (length buf) start i pos turns.valid begins (omega (arith, left)) turned in
    let rest =
      compare_from-equal bs buf start (i + 1) (next (length buf) pos) (l ++ y ∷ []) turns.kept
        (omega (arith, left)) begins after in
    let same_rest =
      ap {B = Run Bool} (λ t. ok (equal bs t))
        (take-append_short (length bs) l (y ∷ []) (omega (arith, left, length-Holds holds))) in
    rw (turns.read, goes)
      (elim (Bool-cases (b == y)) [
        | inr apart ↦ rw apart refl
        | inl same ↦ elim (Bool-cases (next (length buf) pos == start)) [
          | inr more ↦ rw (same, more) (rest ∙ same_rest)
          | inl last ↦
              let back : next (length buf) pos ≡ start = ground (arith, last) in
              let over : length bs ≡ 0 = elim after [
                | inl ahead ↦ absurd (omega (arith, ahead, back))
                | inr around ↦ omega (arith, around, back, left)
              ] in
              rw (same, last, length-zero bs over) refl
        ]
      ])

-- Compare tells whether the slice is what the buffer holds.
compare-equal :
    (c : CyclicBuffer) (size n : ℕ) (l data_ : List ℕ)
    → IsFilled c size l n
    → compare c data_ ≡ ok (equal data_ l)
unfolding compare
compare-equal c size n l data_ filled =
    let total = length-Holds filled.held in
    elim (Bool-cases (length c.buf == length data_)) [
      | inr apart ↦ rw (apart, differ data_ l (ground (arith, apart, total))) refl
      | inl same ↦
          let whole : length l ≡ length data_ = ground (arith, same, total) in
          let inside : c.pos < length c.buf = omega (arith, place filled.held) in
          rw same (
            compare_from-equal data_ c.buf c.pos 0 c.pos l filled.held (omega (arith, whole, total))
              inside (inl (omega arith))
            ∙ ap (λ t. ok (equal data_ t)) (take-whole (length data_) l whole))
    ]
  where
    place : {buf : List ℕ} {pos : ℕ} {l : List ℕ} → Holds buf pos l → pos < length buf
    place h =
        let total = ap length h.buf_is in
        omega (arith, total, length-append h.before h.after, h.inside, h.pos_is)

-- Compare, after any writes to a new buffer, tells whether a slice is the last bytes of all that were
-- written, as many as the capacity, with zeros for those that were not written yet. All sizes are such
-- as an int holds.
pub compare-held :
    (writes : List (List ℕ)) (capacity : ℕ) (data_ : List ℕ)
    → 0 < capacity
    → length (concat writes) < 2 ^ 63
    → (write_all writes (new_cyclic_buffer capacity) >>= λ c. compare c data_)
      ≡ ok (equal data_ (held writes capacity))
compare-held writes capacity data_ positive small =
    let (c, done, filled) = write_all_new writes capacity positive (omega (arith, small)) in
    ap (λ o. o >>= λ c. compare c data_) done
    ∙ compare-equal c capacity (length (concat writes)) (held writes capacity) data_ filled
