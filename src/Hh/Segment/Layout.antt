-- ===== src/Hh/Segment/Layout.antt =====
-- How the blocks of a segment stand in its file.
use mathlib.Core.List.{append_assoc, append-nil}
use chronus.Base.{
  ℕ, ◌+◌, ◌^◌, ◌≤◌, ◌<◌, ◌≡◌, refl, sym, ap, ◌∙◌, List, [], ◌∷◌, ◌++◌, some, arith, All, length,
  length-append,
}
use chronus.Hh.Bytes.{put_uint64}
use chronus.Hh.Segment.{Segment}

-- A block behind its length.
abbrev pub frame : List ℕ → List ℕ
frame b = put_uint64 (length b) ++ b

abbrev pub frames : List (List ℕ) → List ℕ
frames [] = []
frames (b ∷ bs) = frame b ++ frames bs

-- The size of the head block, 0 if there is none.
abbrev pub head_size : List (List ℕ) → ℕ
head_size [] = 0
head_size (b ∷ bs) = length b

-- The greatest size that a segment may be given.
abbrev pub size_limit : ℕ
size_limit = 2 ^ 61

-- An open segment by its parts.
abbrev pub on_disk : ℕ → List ℕ → ℕ → ℕ → ℕ → ℕ → Segment
on_disk size bytes offset pos current_size max_size = record {
  size = size;
  file = some (record { bytes = bytes; offset = offset });
  pos = pos;
  current_size = current_size;
  max_size = max_size;
}

abbrev pub footer : List (List ℕ) → List ℕ
footer done = put_uint64 (length (frames done))

abbrev pub size_of : List (List ℕ) → List (List ℕ) → ℕ
size_of done todo = length (frames done) + length (frames todo) + 8

-- The segment that holds the blocks `todo` behind the blocks `done`, which have been passed.
abbrev pub image : List (List ℕ) → List (List ℕ) → ℕ → ℕ → Segment
image done todo offset max_size =
    on_disk (size_of done todo) (frames done ++ (frames todo ++ footer done)) offset
      (length (frames done)) (head_size todo) max_size

-- Sizes stay clear of the sign, and no block that is still to be read is empty.
pub record Fits (done todo : List (List ℕ)) (max_size : ℕ) : Type 0 where
  pub nonempty : All (λ b. 0 < length b) todo
  pub bounded : size_of done todo ≤ size_limit + 8
  pub max_bounded : max_size ≤ size_limit

pub length-put_uint64 : (n : ℕ) → length (put_uint64 n) ≡ 8
unfolding put_uint64
length-put_uint64 n = refl

pub frames-append : (bs cs : List (List ℕ)) → frames (bs ++ cs) ≡ frames bs ++ frames cs
frames-append [] cs = refl
frames-append (b ∷ bs) cs =
    rw (frames-append bs cs) (sym (append_assoc (frame b) (frames bs) (frames cs)))

pub frames-snoc : (bs : List (List ℕ)) (b : List ℕ) → frames (bs ++ b ∷ []) ≡ frames bs ++ frame b
frames-snoc bs b = frames-append bs (b ∷ []) ∙ ap (λ l. frames bs ++ l) (append-nil (frame b))

pub length-frames_snoc :
    (bs : List (List ℕ)) (b : List ℕ)
    → length (frames (bs ++ b ∷ [])) ≡ length (frames bs) + length b + 8
length-frames_snoc bs b =
    ap length (frames-snoc bs b)
    ∙ omega (
      arith,
      length-append (frames bs) (frame b),
      length-append (put_uint64 (length b)) b,
      length-put_uint64 (length b),
    )

pub length-frame : (b : List ℕ) → length (frame b) ≡ length b + 8
length-frame b =
    omega (arith, length-append (put_uint64 (length b)) b, length-put_uint64 (length b))
