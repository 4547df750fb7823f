-- ===== src/Hh/Disk.antt =====
-- os.File: the bytes of a regular file and the offset at which the next call reads or writes. A
-- call fails only for its arguments: failing disks are not modelled.
use native.Mathlib.Nat.{zero-add, add-zero}
use chronus.Base.{
  ℕ, zero, suc, ◌+◌, ◌-◌, ◌≤◌, ◌≡◌, refl, sym, ap, ◌∙◌, List, [], ◌∷◌, ◌++◌, arith, length,
  length-append, take, drop, replicate,
}

pub record File : Type 0 where
  pub bytes : List ℕ
  pub offset : ℕ

-- A write at the offset; beyond the end the gap is filled with zeros.
unfoldable pub write_at : ℕ → List ℕ → List ℕ → List ℕ
write_at offset b bytes =
    take offset bytes
    ++ (replicate (offset - length bytes) 0 ++ (b ++ drop (offset + length b) bytes))

unfoldable pub read_at : ℕ → ℕ → List ℕ → List ℕ
read_at offset n bytes = take n (drop offset bytes)

suc_add : (a b : ℕ) → suc a + b ≡ suc (a + b)
suc_add a b = omega arith

take-append : (xs ys : List ℕ) → take (length xs) (xs ++ ys) ≡ xs
take-append [] ys = refl
take-append (x ∷ xs) ys = ap (◌∷◌ x) (take-append xs ys)

drop-append : (xs ys : List ℕ) (n : ℕ) → drop (length xs + n) (xs ++ ys) ≡ drop n ys
drop-append [] ys n = rw zero-add
drop-append (x ∷ xs) ys n = rw suc_add (drop-append xs ys n)

-- A write at the end of the first part leaves that part and overwrites the second.
pub write_at-append :
    (xs ys b : List ℕ) (offset : ℕ)
    → offset ≡ length xs
    → write_at offset b (xs ++ ys) ≡ xs ++ (b ++ drop (length b) ys)
unfolding write_at
write_at-append xs ys b offset e =
    let inside : length xs - length (xs ++ ys) ≡ 0 = omega (arith, length-append xs ys) in
    rw (e, take-append, drop-append, inside)

-- A read at the end of the first part reads the second.
pub read_at-append :
    (xs ys : List ℕ) (offset n : ℕ) → offset ≡ length xs → read_at offset n (xs ++ ys) ≡ take n ys
unfolding read_at
read_at-append xs ys offset n e =
    let start : drop (length xs) (xs ++ ys) ≡ ys =
      ap (λ k. drop k (xs ++ ys)) (sym (add-zero (length xs))) ∙ drop-append xs ys 0 in
    rw (e, start)

pub take-all : (xs ys : List ℕ) (n : ℕ) → n ≡ length xs → take n (xs ++ ys) ≡ xs
take-all xs ys n e = rw (e, take-append)

pub drop-all : (xs : List ℕ) (n : ℕ) → length xs ≤ n → drop n xs ≡ []
drop-all [] zero h = refl
drop-all [] (suc n) h = refl
drop-all (x ∷ xs) zero h = absurd (omega arith)
drop-all (x ∷ xs) (suc n) h = drop-all xs n (omega arith)
