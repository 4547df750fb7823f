-- ===== src/X/CyclicBuffer/Written.antt =====
-- What a cyclic buffer holds after writes.
use mathlib.Core.List.{append_assoc, append-nil}
use chronus.Base.{
  ℕ, zero, suc, ◌+◌, ◌-◌, ◌%◌, ◌^◌, ◌≤◌, ◌<◌, ◌≡◌, refl, sym, ap, ap₂, ◌∙◌, false, List, [], ◌∷◌,
  ◌++◌, ok, ◌>>=◌, length, length-append, drop-append, length-set, length-drop, length-replicate,
  drop, replicate, set, ltb, arith, Bool-cases, inl, inr,
}
use chronus.X.CyclicBuffer.{CyclicBuffer, Run, new_cyclic_buffer, forward, write_bytes, write}
use chronus.X.CyclicBuffer.Contents.{Holds, Holds-Turns, length-Holds, nonempty-Holds}

drop-drop_append :
    (m n : ℕ) (xs ys : List ℕ) → n ≤ length xs → drop m (drop n xs ++ ys) ≡ drop (n + m) (xs ++ ys)
drop-drop_append m zero xs ys h = ap (λ k. drop k (xs ++ ys)) (omega arith)
drop-drop_append m (suc n) [] ys h = absurd (omega (arith, h))
drop-drop_append m (suc n) (x ∷ xs) ys h =
    drop-drop_append m n xs ys (omega (arith, h))
    ∙ ap (λ k. drop k (x ∷ xs ++ ys)) {x = suc (n + m)} {y = suc n + m} (omega arith)

pub drop-append_long :
    (n : ℕ) (xs ys : List ℕ) → length xs ≤ n → drop n (xs ++ ys) ≡ drop (n - length xs) ys
drop-append_long n [] ys h = ap (λ k. drop k ys) (omega arith)
drop-append_long zero (x ∷ xs) ys h = absurd (omega (arith, h))
drop-append_long (suc n) (x ∷ xs) ys h =
    drop-append_long n xs ys (omega (arith, h)) ∙ ap (λ k. drop k ys) (omega arith)

-- The buffer holds the list, and so many bytes have been written.
pub record IsFilled (c : CyclicBuffer) (size : ℕ) (l : List ℕ) (n : ℕ) : Type 0 where
  pub held : Holds c.buf c.pos l
  pub sized : length c.buf ≡ size
  pub counted : c.cnt ≡ n

recount :
    {c : CyclicBuffer} {size n n' : ℕ} {l l' : List ℕ}
    → l ≡ l'
    → n ≡ n'
    → IsFilled c size l n
    → IsFilled c size l' n'
recount e f filled = rw (← e, ← f) filled

write_bytes-IsFilled :
    (bs l : List ℕ) (c : CyclicBuffer) (size n : ℕ)
    → IsFilled c size l n
    → (c' : CyclicBuffer) × (write_bytes bs c ≡ ok c')
      × IsFilled c' size (drop (length bs) (l ++ bs)) n
unfolding write_bytes forward
write_bytes-IsFilled bs [] c size n filled = absurd (omega (arith, nonempty-Holds filled.held))
write_bytes-IsFilled [] (y ∷ l) c size n filled =
    (c, refl, recount (sym (append-nil (y ∷ l))) refl filled)
write_bytes-IsFilled (b ∷ bs) (y ∷ l) c size n filled =
    let (stores, turned) = (Holds-Turns filled.held).written b in
    let kept = length-set c.buf c.pos b in
    let c1 : CyclicBuffer = forward (record c { buf = set c.buf c.pos b }) in
    let one : IsFilled c1 size (l ++ b ∷ []) n = record {
      held = rw kept turned;
      sized = kept ∙ filled.sized;
      counted = filled.counted;
    } in
    let (c', writes, done) = write_bytes-IsFilled bs (l ++ b ∷ []) c1 size n one in
    (
      c',
      ap (λ o. o >>= λ buf. write_bytes bs (forward (record c { buf = buf }))) stores ∙ writes,
      recount (ap (drop (length bs)) (append_assoc l (b ∷ []) bs)) refl done,
    )

-- The bytes that are skipped would not stay in the buffer.
skipped :
    (l bs : List ℕ) (offset : ℕ)
    → length l + offset ≡ length bs
    → drop (length (drop offset bs)) (l ++ drop offset bs) ≡ drop (length bs) (l ++ bs)
skipped l bs offset fits =
    ap (λ k. drop k (l ++ drop offset bs)) {x = length (drop offset bs)} {y = length l}
      (omega (arith, fits, length-drop offset bs))
    ∙ drop-append (length l) l (drop offset bs) refl
    ∙ ap (λ k. drop k bs) (omega (arith, fits))
    ∙ sym (drop-append_long (length bs) l bs (omega (arith, fits)))

write-IsFilled :
    (bs l : List ℕ) (c : CyclicBuffer) (size n : ℕ)
    → n + length bs < 2 ^ 64
    → IsFilled c size l n
    → (c' : CyclicBuffer) × (write bs c ≡ ok c')
      × IsFilled c' size (drop (length bs) (l ++ bs)) (n + length bs)
unfolding write
write-IsFilled [] l c size n small filled =
    (c, refl, recount (sym (append-nil l)) (omega arith) filled)
write-IsFilled (b ∷ bs) l c size n small filled =
    elim (Bool-cases (ltb (length (b ∷ bs)) (length c.buf))) [
      | inl less ↦
          rw (less, some_byte)
            (write_bytes-IsFilled (b ∷ bs) l _ size (n + length (b ∷ bs)) counted)
      | inr more ↦
          let le : length c.buf ≤ length (b ∷ bs) = ground (arith, more) in
          let offset = length (b ∷ bs) - length c.buf in
          let (c', writes, done) =
            write_bytes-IsFilled (drop offset (b ∷ bs)) l _ size (n + length (b ∷ bs)) counted in
          (
            c',
            rw (more, some_byte) writes,
            recount (skipped l (b ∷ bs) offset (omega (arith, le, length-Holds filled.held))) refl
                done,
          )
    ]
  where
    counted :
        IsFilled
          (record c { cnt = (c.cnt + length (b ∷ bs)) % 2 ^ 64 })
          size
          l
          (n + length (b ∷ bs))
    counted = record {
      held = filled.held;
      sized = filled.sized;
      counted = omega (arith, filled.counted, small);
    }

    some_byte : ltb (length (b ∷ bs)) 1 ≡ false
    some_byte = ground arith

-- One write after the other.
abbrev pub write_all : List (List ℕ) → CyclicBuffer → Run CyclicBuffer
write_all [] c = ok c
write_all (bs ∷ rest) c = write bs c >>= λ c'. write_all rest c'

abbrev pub concat : List (List ℕ) → List ℕ
concat [] = []
concat (bs ∷ rest) = bs ++ concat rest

write_all-IsFilled :
    (writes : List (List ℕ)) (l : List ℕ) (c : CyclicBuffer) (size n : ℕ)
    → n + length (concat writes) < 2 ^ 64
    → IsFilled c size l n
    → (c' : CyclicBuffer) × (write_all writes c ≡ ok c')
      × IsFilled c' size
          (drop (length (concat writes)) (l ++ concat writes))
          (n + length (concat writes))
write_all-IsFilled [] l c size n small filled =
    (c, refl, recount (sym (append-nil l)) (omega arith) filled)
write_all-IsFilled (bs ∷ rest) l c size n small filled =
    let total = length-append bs (concat rest) in
    let (c1, writes, one) = write-IsFilled bs l c size n (omega (arith, small, total)) filled in
    let (c', then_, all) =
      write_all-IsFilled rest (drop (length bs) (l ++ bs)) c1 size (n + length bs)
        (omega (arith, small, total)) one in
    let contents =
      drop-drop_append (length (concat rest)) (length bs) (l ++ bs) (concat rest)
        (omega (arith, length-append l bs))
      ∙ ap₂ drop (sym total) (append_assoc l bs (concat rest)) in
    (
      c',
      ap (λ o. o >>= λ c'. write_all rest c') writes ∙ then_,
      recount contents (omega (arith, total)) all,
    )

-- A new buffer after writes holds their last bytes, filled up with zeros in front.
pub write_all_new :
    (writes : List (List ℕ)) (capacity : ℕ)
    → 0 < capacity
    → length (concat writes) < 2 ^ 64
    → (c : CyclicBuffer) × (write_all writes (new_cyclic_buffer capacity) ≡ ok c)
      × IsFilled c capacity
          (drop (length (concat writes)) (replicate capacity 0 ++ concat writes))
          (length (concat writes))
unfolding new_cyclic_buffer
write_all_new writes capacity positive small =
    let sized = length-replicate {A = ℕ} capacity 0 in
    let (c, done, filled) =
      write_all-IsFilled writes (replicate capacity 0) (new_cyclic_buffer capacity) capacity 0
        (omega (arith, small))
        (record {
          held = record {
            before = [];
            after = replicate capacity 0;
            buf_is = refl;
            pos_is = refl;
            l_is = sym (append-nil (replicate capacity 0));
            inside = omega (arith, sized, positive);
          };
          sized = sized;
          counted = refl;
        }) in
    (c, done, recount refl (omega arith) filled)
