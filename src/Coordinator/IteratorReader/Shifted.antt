-- ===== src/Coordinator/IteratorReader/Shifted.antt =====
-- shiftBuffer puts the header in front of the bytes, of which the last ones are lost.
use mathlib.Core.List.{append_assoc, append-nil}
use chronus.Base.{
  ℕ, zero, suc, ◌+◌, ◌-◌, ◌≤◌, ◌<◌, ◌≡◌, refl, sym, ap, ap₂, ◌∙◌, false, List, [], ◌∷◌, ◌++◌,
  length, length-append, length-take, length-set, drop-append, drop-beyond, get_or, set, take, drop,
  take-append-drop, ltb, arith,
}
use chronus.Coordinator.IteratorReader.{shift_from, put_header, shift_buffer}

take-set : (n i v : ℕ) (xs : List ℕ) → n ≤ i → take n (set xs i v) ≡ take n xs
take-set zero i v xs h = refl
take-set (suc n) i v [] h = refl
take-set (suc n) zero v (x ∷ xs) h = absurd (omega (arith, h))
take-set (suc n) (suc i) v (x ∷ xs) h = ap (λ l. x ∷ l) (take-set n i v xs (omega (arith, h)))

drop-set : (i v : ℕ) (xs : List ℕ) → i < length xs → drop i (set xs i v) ≡ v ∷ drop (suc i) xs
drop-set i v [] h = absurd (omega (arith, h))
drop-set zero v (x ∷ xs) h = refl
drop-set (suc i) v (x ∷ xs) h = drop-set i v xs (omega (arith, h))

take-suc :
    (k : ℕ) (xs r : List ℕ) → k < length xs → take k xs ++ get_or xs k 0 ∷ r ≡ take (suc k) xs ++ r
take-suc k [] r h = absurd (omega (arith, h))
take-suc zero (x ∷ xs) r h = refl
take-suc (suc k) (x ∷ xs) r h = ap (λ l. x ∷ l) (take-suc k xs r (omega (arith, h)))

shift_from_lem :
    (k offset : ℕ) (xs : List ℕ)
    → offset + k ≤ length xs
    → shift_from k offset xs ≡ take offset xs ++ (take k xs ++ drop (offset + k) xs)
unfolding shift_from
shift_from_lem zero offset xs h = sym (
    ap (λ n. take offset xs ++ drop n xs) {x = offset + 0} {y = offset} (omega arith)
    ∙ take-append-drop offset xs)
shift_from_lem (suc k) offset xs h =
    let v = get_or xs k 0 in
    let i = offset + k in
    let inside : i < length xs = omega (arith, h) in
    shift_from_lem k offset (set xs i v) (omega (arith, inside, length-set xs i v))
    ∙ ap₂ (λ a b. a ++ (b ++ drop i (set xs i v))) (take-set offset i v xs (omega arith))
        (take-set k i v xs (omega arith))
    ∙ ap (λ t. take offset xs ++ (take k xs ++ t)) (drop-set i v xs inside)
    ∙ ap (λ t. take offset xs ++ t) (take-suc k xs (drop (suc i) xs) (omega (arith, inside)))
    ∙ ap (λ n. take offset xs ++ (take (suc k) xs ++ drop n xs)) {x = suc i} {y = offset + suc k}
        (omega arith)

set-append :
    (xs : List ℕ) (y v : ℕ) (ys : List ℕ) (i : ℕ)
    → i ≡ length xs
    → set (xs ++ y ∷ ys) i v ≡ xs ++ v ∷ ys
set-append [] y v ys zero e = refl
set-append [] y v ys (suc i) e = absurd (omega (arith, e))
set-append (x ∷ xs) y v ys zero e = absurd (omega (arith, e))
set-append (x ∷ xs) y v ys (suc i) e = ap (λ l. x ∷ l) (set-append xs y v ys i (omega (arith, e)))

put_header_lem :
    (header xs ys : List ℕ) (i : ℕ)
    → i ≡ length xs
    → length header ≤ length ys
    → put_header i header (xs ++ ys) ≡ xs ++ (header ++ drop (length header) ys)
unfolding put_header
put_header_lem [] xs ys i e h = refl
put_header_lem (b ∷ header) xs [] i e h = absurd (omega (arith, h))
put_header_lem (b ∷ header) xs (y ∷ ys) i e h =
    ap (put_header (suc i) header) (set-append xs y b ys i e ∙ sym (append_assoc xs (b ∷ []) ys))
    ∙ put_header_lem header (xs ++ b ∷ []) ys (suc i) (omega (arith, e, length-append xs (b ∷ [])))
        (omega (arith, h))
    ∙ append_assoc xs (b ∷ []) (header ++ drop (length header) ys)

pub shift_buffer_lem :
    (xs header : List ℕ)
    → length header ≤ length xs
    → shift_buffer xs header ≡ header ++ take (length xs - length header) xs
unfolding shift_buffer
shift_buffer_lem xs header h =
    let offset = length header in
    let k = length xs - offset in
    let fits : ltb (length xs) offset ≡ false = ground (arith, h) in
    let front : length (take offset xs) ≡ offset = omega (arith, length-take offset xs, h) in
    rw fits (
      ap (put_header 0 header) (shift_from_lem k offset xs (omega (arith, h)))
      ∙ put_header_lem header [] (take offset xs ++ (take k xs ++ drop (offset + k) xs)) 0 refl
          (omega (arith, length-append (take offset xs) (take k xs ++ drop (offset + k) xs), front))
      ∙ ap (λ t. header ++ t)
          (drop-append offset (take offset xs) (take k xs ++ drop (offset + k) xs) front
            ∙ ap (λ t. take k xs ++ t) (drop-beyond (offset + k) xs (omega (arith, h)))
            ∙ append-nil (take k xs)))
