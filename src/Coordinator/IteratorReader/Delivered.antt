-- ===== src/Coordinator/IteratorReader/Delivered.antt =====
-- What an iteratorReader gives of the bytes that it reads.
use mathlib.Core.Path.{subst}
use mathlib.Core.List.{append_assoc, append-nil}
use chronus.Base.{
  ℕ, ◌+◌, ◌-◌, ◌^◌, ◌≤◌, ◌<◌, ◌≡◌, refl, sym, ap, ◌∙◌, inl, inr, Bool, true, false, List, [], ◌∷◌,
  ◌++◌, Option, some, ok, ◌>>=◌, length, length-append, length-replicate, take, take-nil,
  if◌then◌else◌, arith, All, Bool-cases,
}
use chronus.X.CyclicBuffer.{Run}
use chronus.Coordinator.IteratorReader.{Reader, ReadError, Answer, eof, new_iterator_reader, read}
use chronus.Coordinator.IteratorReader.Steps.{IsReading, ends_with, read-Step}

-- A Read: its slice, and what the connection answers.
abbrev pub Call : Type 0 → Type 0
Call E = List ℕ × (List ℕ × Option (ReadError E))

-- Of the bytes up to an end, all are given but as many as the terminator has, and the reader says
-- whether it met the terminator there.
abbrev pub Delivered : List ℕ → List ℕ × Bool → List ℕ → Reader → Type 0
Delivered term end_ out r =
    (out ≡ take (length end_.0 - length term) end_.0) × (r.terminated ≡ end_.1)

-- Where the first Read of `got` has given its bytes.
module _ (term s got out : List ℕ) (n : ℕ) (p : List ℕ)
    (gives : take (length s - length term) s ++ take n p
      ≡ take (length (s ++ got) - length term) (s ++ got)) where
  regroup :
      take (length s - length term) s ++ (take n p ++ out)
      ≡ take (length (s ++ got) - length term) (s ++ got) ++ out
  regroup =
      sym (append_assoc (take (length s - length term) s) (take n p) out) ∙ ap (λ l. l ++ out) gives

new_iterator_reader-IsReading : (term : List ℕ) → IsReading (new_iterator_reader term) []
unfolding new_iterator_reader
new_iterator_reader-IsReading term = record {
  chunks = [];
  whole = refl;
  stored = refl;
  counted = refl;
  sized = length-replicate (length term) 0;
}

module _ {E : Type 0} where
  -- One Read after the other; the bytes that they give, and the reader then.
  abbrev pub reads : Reader → List (Call E) → Run (List ℕ × Reader)
  reads r [] = ok ([], r)
  reads r (call ∷ calls) = read r call.0 call.1 >>= λ a.
      reads a.1 calls >>= λ rest. ok (take a.0.n a.0.slice ++ rest.0, rest.1)

  -- The bytes that the connection has for the calls.
  abbrev pub all_bytes : List (Call E) → List ℕ
  all_bytes [] = []
  all_bytes (call ∷ calls) = call.1.0 ++ all_bytes calls

  -- The connection puts no more bytes in a slice than it has room for.
  abbrev pub Fits : List (Call E) → Type 0
  Fits calls = All (λ call. length call.1.0 ≤ length call.0) calls

  -- The bytes before these calls are `s`. The bytes up to the end of the first answer after which all
  -- of them end with the terminator, or all bytes; and whether there is such an answer.
  abbrev pub until : List ℕ → List ℕ → List (Call E) → List ℕ × Bool
  until term s [] = (s, false)
  until term s ((p, ([], error)) ∷ calls) = until term s calls
  until term s ((p, (b ∷ got, error)) ∷ calls) =
      let rest = until term (s ++ b ∷ got) calls in
      if ends_with term (s ++ b ∷ got) then (s ++ b ∷ got, true) else rest

  until_ended :
      (term s got p : List ℕ) (b : ℕ) (error : Option (ReadError E)) (calls : List (Call E))
      → ends_with term (s ++ b ∷ got) ≡ true
      → until term s ((p, (b ∷ got, error)) ∷ calls) ≡ (s ++ b ∷ got, true)
  until_ended term s got p b error calls ended = rw ended refl

  until_going :
      (term s got p : List ℕ) (b : ℕ) (error : Option (ReadError E)) (calls : List (Call E))
      → ends_with term (s ++ b ∷ got) ≡ false
      → until term s ((p, (b ∷ got, error)) ∷ calls) ≡ until term (s ++ b ∷ got) calls
  until_going term s got p b error calls going = rw going refl

  read_ended :
      (r : Reader) (p : List ℕ) (bytes : List ℕ) (error : Option (ReadError E))
      → r.terminated ≡ true
      → read r p (bytes, error) ≡ ok (record { n = 0; error = some eof; slice = p }, r)
  unfolding read
  read_ended r p bytes error ended = taken r.terminated _ _ ended
    where
      taken : {A : Type 0} (b : Bool) (x y : A) → b ≡ true → (if b then x else y) ≡ x
      taken b x y h = rw h refl

  reads_ended :
      (r : Reader) (calls : List (Call E)) → r.terminated ≡ true → reads r calls ≡ ok ([], r)
  reads_ended r [] ended = refl
  reads_ended r (call ∷ calls) ended =
      ap (λ o. o >>= λ a. reads a.1 calls >>= λ rest. ok (take a.0.n a.0.slice ++ rest.0, rest.1))
        (read_ended r call.0 call.1.0 call.1.1 ended)
      ∙ ap (λ o. o >>= λ rest. ok (rest.0, rest.1)) (reads_ended r calls ended)

  reads_after :
      (r r1 r' : Reader) (call : Call E) (a : Answer E) (calls : List (Call E)) (out : List ℕ)
      → read r call.0 call.1 ≡ ok (a, r1)
      → reads r1 calls ≡ ok (out, r')
      → reads r (call ∷ calls) ≡ ok (take a.n a.slice ++ out, r')
  reads_after r r1 r' call a calls out first rest =
      ap (λ o. o >>= λ a. reads a.1 calls >>= λ rest. ok (take a.0.n a.0.slice ++ rest.0, rest.1))
        first
      ∙ ap (λ o. o >>= λ rest. ok (take a.n a.slice ++ rest.0, rest.1)) rest

  read_nothing :
      (r : Reader) (p : List ℕ) (error : Option (ReadError E)) (calls : List (Call E))
      → r.terminated ≡ false
      → reads r ((p, ([], error)) ∷ calls) ≡ (reads r calls >>= λ rest. ok (rest.0, rest.1))
  unfolding read
  read_nothing r p error calls going = rw going refl

  reads_going :
      (calls : List (Call E)) (r : Reader) (s term : List ℕ)
      → r.terminator ≡ term
      → r.terminated ≡ false
      → IsReading r s
      → 0 < length term
      → length term < 2 ^ 63
      → length s + length (all_bytes calls) < 2 ^ 63
      → Fits calls
      → (out : List ℕ) × (r' : Reader) × (reads r calls ≡ ok (out, r'))
        × Delivered term (until term s calls) (take (length s - length term) s ++ out) r'
  reads_going [] r s term same going reading positive short small fits =
      ([], r, refl, (append-nil (take (length s - length term) s), going))
  reads_going ((p, ([], error)) ∷ calls) r s term same going reading positive short small fits =
      let (out, r', runs, result) =
        reads_going calls r s term same going reading positive short small fits.1 in
      (
        out,
        r',
        read_nothing r p error calls going ∙ ap (λ o. o >>= λ rest. ok (rest.0, rest.1)) runs,
        result,
      )
  reads_going ((p, (b ∷ got, error)) ∷ calls) r s term same going reading positive short small
        fits =
      let bytes = b ∷ got in
      let total = length-append bytes (all_bytes calls) in
      let length_is = ap length same in
      let (a, runs, step) =
        read-Step r s bytes p error reading (omega arith) fits.0
          (omega (arith, positive, length_is)) (omega (arith, short, length_is))
          (omega (arith, small, total)) going in
      let gives : take (length s - length term) s ++ take a.0.n a.0.slice
          ≡ take (length (s ++ bytes) - length term) (s ++ bytes) =
        subst
          (λ l.
            take (length s - length l) s ++ take a.0.n a.0.slice
            ≡ take (length (s ++ bytes) - length l) (s ++ bytes))
          same step.gives in
      let ends : a.1.terminated ≡ ends_with term (s ++ bytes) =
        subst (λ l. a.1.terminated ≡ ends_with l (s ++ bytes)) same step.ends in
      elim (Bool-cases a.1.terminated) [
        | inl ended ↦ (
          take a.0.n a.0.slice ++ [],
          a.1,
          reads_after r a.1 a.1 (p, (bytes, error)) a.0 calls [] runs (reads_ended a.1 calls ended),
          subst
              (λ u.
                Delivered term u (take (length s - length term) s ++ (take a.0.n a.0.slice ++ []))
                  a.1)
              (sym (until_ended term s got p b error calls (sym ends ∙ ended)))
              (regroup term s bytes [] a.0.n a.0.slice gives ∙ append-nil _, ended),
        )
        | inr on ↦
            let (out, r', rest, result) =
              reads_going calls a.1 (s ++ bytes) term (step.same ∙ same) on step.reading positive
                short (omega (arith, small, total, length-append s bytes)) fits.1 in
            (
              take a.0.n a.0.slice ++ out,
              r',
              reads_after r a.1 r' (p, (bytes, error)) a.0 calls out runs rest,
              subst
                  (λ u.
                    Delivered term u
                      (take (length s - length term) s ++ (take a.0.n a.0.slice ++ out)) r')
                  (sym (until_going term s got p b error calls (sym ends ∙ on)))
                  (regroup term s bytes out a.0.n a.0.slice gives ∙ result.0, result.1),
            )
      ]

  -- The Reads of a new iteratorReader do not panic, whatever sizes its slices and the connection's
  -- answers have. Take the first answer of the connection after which all bytes read so far end with
  -- the terminator. The reader is terminated exactly where there is such an answer, and the Reads give
  -- the bytes up to its end, or all bytes where there is none, but not the last ones, as many as the
  -- terminator has. A terminator inside an answer is not looked for. The terminator is not empty, no
  -- answer is longer than the slice of its Read, and all sizes are such as an int holds.
  pub reads-Delivered :
      (term : List ℕ) (calls : List (Call E))
      → 0 < length term
      → length term < 2 ^ 63
      → length (all_bytes calls) < 2 ^ 63
      → Fits calls
      → (out : List ℕ) × (r : Reader) × (reads (new_iterator_reader term) calls ≡ ok (out, r))
        × Delivered term (until term [] calls) out r
  unfolding new_iterator_reader
  reads-Delivered term calls positive short small fits =
      let (out, r, runs, result) =
        reads_going calls (new_iterator_reader term) [] term refl refl
          (new_iterator_reader-IsReading term) positive short (omega (arith, small)) fits in
      (
        out,
        r,
        runs,
        subst (λ l. Delivered term (until term [] calls) (l ++ out) r) (take-nil (0 - length term))
            result,
      )
