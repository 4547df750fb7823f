-- ===== src/X/CyclicBuffer/Contents.antt =====
-- The bytes of a cyclic buffer from its position on, around its end.
use mathlib.Core.List.{append_assoc, append-nil}
use mathlib.Core.Path.{subst}
use native.Mathlib.Nat.{mod_self}
use chronus.Base.{
  ℕ, ◌+◌, ◌<◌, ◌≡◌, refl, sym, ap, ◌∙◌, true, List, [], ◌∷◌, ◌++◌, ok, length, length-append,
  get_or, set, ltb, leb, if◌then◌else◌, arith, Bool-cases, inl, inr,
}
use chronus.X.CyclicBuffer.{get_elem, set_elem, read_next}

-- `l` are the bytes from the position to the end, and then those from the start.
pub record Holds (buf : List ℕ) (pos : ℕ) (l : List ℕ) : Type 0 where
  pub before : List ℕ
  pub after : List ℕ
  pub buf_is : buf ≡ before ++ after
  pub pos_is : pos ≡ length before
  pub l_is : l ≡ after ++ before
  pub inside : 0 < length after

pub length-Holds : {buf : List ℕ} {pos : ℕ} {l : List ℕ} → Holds buf pos l → length l ≡ length buf
length-Holds h =
    ap length h.l_is
    ∙ length-append h.after h.before
    ∙ omega (arith, length-append h.before h.after)
    ∙ sym (ap length h.buf_is)

get_or-middle : (xs : List ℕ) (y : ℕ) (ys : List ℕ) → get_or (xs ++ y ∷ ys) (length xs) 0 ≡ y
get_or-middle [] y ys = refl
get_or-middle (x ∷ xs) y ys = get_or-middle xs y ys

pub set-middle :
    (xs : List ℕ) (y b : ℕ) (ys : List ℕ) → set (xs ++ y ∷ ys) (length xs) b ≡ xs ++ b ∷ ys
set-middle [] y b ys = refl
set-middle (x ∷ xs) y b ys = ap (λ l. x ∷ l) (set-middle xs y b ys)

-- The position after `pos`.
abbrev pub next : ℕ → ℕ → ℕ
next l pos = if leb l (pos + 1) then 0 else pos + 1

pub read_next-next : (l pos : ℕ) → pos < l → read_next l pos ≡ next l pos
unfolding read_next
read_next-next l pos h = elim (Bool-cases (leb l (pos + 1))) [
  | inl last ↦ let end_ : pos + 1 ≡ l = ground (arith, last) in rw last (rw end_ (mod_self l))
  | inr more ↦ rw more refl
]

-- Past a byte, that byte is the last.
Holds-next :
    (xs : List ℕ) (b : ℕ) (ys : List ℕ)
    → Holds (xs ++ b ∷ ys) (next (length (xs ++ b ∷ ys)) (length xs)) ((ys ++ xs) ++ b ∷ [])
Holds-next xs b [] =
    let total = length-append xs (b ∷ []) in
    record {
      before = [];
      after = xs ++ b ∷ [];
      buf_is = refl;
      pos_is = ground (arith, total);
      l_is = sym (append-nil (xs ++ b ∷ []));
      inside = omega (arith, total);
    }
Holds-next xs b (y ∷ ys) =
    let total = length-append xs (b ∷ y ∷ ys) in
    let part = length-append xs (b ∷ []) in
    record {
      before = xs ++ b ∷ [];
      after = y ∷ ys;
      buf_is = sym (append_assoc xs (b ∷ []) (y ∷ ys));
      pos_is = ground (arith, total, part);
      l_is = append_assoc (y ∷ ys) xs (b ∷ []);
      inside = omega arith;
    }

-- What reading and writing at the position do.
pub record Turns (buf : List ℕ) (pos y : ℕ) (l : List ℕ) : Type 0 where
  pub valid : pos < length buf
  pub read : get_elem buf pos ≡ ok y
  pub kept : Holds buf (next (length buf) pos) (l ++ y ∷ [])
  pub written :
      (b : ℕ)
      → (set_elem buf pos b ≡ ok (set buf pos b))
        × Holds (set buf pos b) (next (length buf) pos) (l ++ b ∷ [])

turns : (xs : List ℕ) (y : ℕ) (ys : List ℕ) → Turns (xs ++ y ∷ ys) (length xs) y (ys ++ xs)
turns xs y ys =
    let total = length-append xs (y ∷ ys) in
    let inside : length xs < length (xs ++ y ∷ ys) = omega (arith, total) in
    let test : ltb (length xs) (length (xs ++ y ∷ ys)) ≡ true = ground (arith, inside) in
    record {
      valid = inside;
      read = rw test (ap ok (get_or-middle xs y ys));
      kept = Holds-next xs y ys;
      written = λ b.
          let same : length (xs ++ b ∷ ys) ≡ length (xs ++ y ∷ ys) =
            omega (arith, total, length-append xs (b ∷ ys)) in
          (
            rw test refl,
            subst
                (λ l.
                  Holds (set (xs ++ y ∷ ys) (length xs) b) (next l (length xs))
                    ((ys ++ xs) ++ b ∷ []))
                same
                (subst
                  (λ buf.
                    Holds buf (next (length (xs ++ b ∷ ys)) (length xs)) ((ys ++ xs) ++ b ∷ []))
                  (sym (set-middle xs y b ys)) (Holds-next xs b ys)),
          );
    }

-- A buffer that holds a list that starts with `y` turns past `y`.
pub Holds-Turns :
    {buf : List ℕ} {pos y : ℕ} {l : List ℕ} → Holds buf pos (y ∷ l) → Turns buf pos y l
Holds-Turns {buf} {pos} {y} {l} h = split h.before h.after h.buf_is h.pos_is h.l_is h.inside
  where
    split :
        (xs ys : List ℕ)
        → buf ≡ xs ++ ys
        → pos ≡ length xs
        → y ∷ l ≡ ys ++ xs
        → 0 < length ys
        → Turns buf pos y l
    split xs [] b p e inside = absurd (omega (arith, inside))
    split xs (z ∷ zs) b p e inside =
        let head_is : y ≡ z = cc (e) in
        let tail_is : l ≡ zs ++ xs = cc (e) in rw (b, p, head_is, tail_is) (turns xs z zs)

pub nonempty-Holds : {buf : List ℕ} {pos : ℕ} {l : List ℕ} → Holds buf pos l → 0 < length l
nonempty-Holds h =
    let e = ap length h.l_is in omega (arith, e, h.inside, length-append h.after h.before)
