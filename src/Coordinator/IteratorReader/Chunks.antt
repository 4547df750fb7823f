-- ===== src/Coordinator/IteratorReader/Chunks.antt =====
-- The bytes of an iteratorReader in chunks, and in the slice that a Read fills.
use mathlib.Core.List.{append_assoc, append-nil}
use chronus.Base.{
  ℕ, ◌+◌, ◌-◌, min, ◌≤◌, ◌≡◌, sym, ap, ◌∙◌, List, [], ◌∷◌, ◌++◌, ◌>>=◌, >>=-ok, >>=-agree,
  >>=-assoc, length, length-take, take, take-append_short, take-append_split, take-take, take-whole,
  leb, arith, Bool-cases, inl, inr,
}
use chronus.X.CyclicBuffer.{CyclicBuffer, write}
use chronus.X.CyclicBuffer.Written.{write_all, concat}

-- What is given out of the older bytes `b` and the newer bytes `got`.
pub delivered :
    (n k j : ℕ) (b got rest : List ℕ)
    → n ≤ length got
    → k ≡ min (length b) (length got)
    → n ≤ k + j
    → take n (take k b ++ take j (got ++ rest)) ≡ take n (b ++ got)
delivered n k j b got rest few least room = elim (Bool-cases (leb (length b) (length got))) [
  | inl fits ↦
      let size : k ≡ length b = ground (arith, fits, least) in
      let within : n - length b ≤ j = omega (arith, size, room) in
      ap (λ t. take n (t ++ take j (got ++ rest))) (take-whole k b (sym size))
      ∙ take-append_split n b (take j (got ++ rest))
      ∙ ap (λ t. take n b ++ t)
          (take-take (n - length b) j (got ++ rest) within
            ∙ take-append_short (n - length b) got rest (omega (arith, few)))
      ∙ sym (take-append_split n b got)
  | inr over ↦
      let size : k ≡ length got = ground (arith, over, least) in
      let more : length got ≤ length b = ground (arith, over) in
      take-append_short n (take k b) (take j (got ++ rest))
        (omega (arith, length-take k b, size, few, more))
      ∙ take-take n k b (omega (arith, size, few))
      ∙ sym (take-append_short n b got (omega (arith, few, more)))
]

pub write_all-append :
    (chunks : List (List ℕ)) (bs : List ℕ) (c : CyclicBuffer)
    → write_all (chunks ++ bs ∷ []) c ≡ (write_all chunks c >>= λ c'. write bs c')
write_all-append [] bs c = >>=-ok (write bs c)
write_all-append (chunk ∷ chunks) bs c =
    >>=-agree (write chunk c) (λ c'. write_all (chunks ++ bs ∷ []) c')
      (λ c'. write_all chunks c' >>= λ c''. write bs c'') (write_all-append chunks bs)
    ∙ sym (>>=-assoc (write chunk c) (λ c'. write_all chunks c') (λ c'. write bs c'))

pub concat-append :
    (chunks : List (List ℕ)) (bs : List ℕ) → concat (chunks ++ bs ∷ []) ≡ concat chunks ++ bs
concat-append [] bs = append-nil bs
concat-append (chunk ∷ chunks) bs =
    ap (λ l. chunk ++ l) (concat-append chunks bs) ∙ sym (append_assoc chunk (concat chunks) bs)
