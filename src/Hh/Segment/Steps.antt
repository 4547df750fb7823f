-- ===== src/Hh/Segment/Steps.antt =====
-- The file calls of a segment, one lemma for each, on a file whose parts are known.
use mathlib.Core.List.{append-nil}
use chronus.Base.{
  ℕ, ◌+◌, ◌-◌, ◌^◌, ◌≤◌, ◌<◌, ◌≡◌, sym, ap, ◌∙◌, List, ◌++◌, ok, arith, length, length-append, true,
  false, ltb, leb, ◌==◌,
}
use chronus.Hh.Bytes.{put_uint64, uint64-put_uint64}
use chronus.Hh.Disk.{write_at-append, read_at-append, take-all, drop-all, write_at, read_at}
use chronus.Hh.Segment.{
  Segment, M, ◌>>=◌, ◌>>◌, hand_on, with_file, seek, seek_end_footer, seek_to_current, write_bytes,
  write_uint64, read_bytes, read_uint64,
}
use chronus.Hh.Segment.Layout.{on_disk, length-put_uint64}

-- A step that succeeds hands its value and its segment on.
pub bind-ok :
    {A B : Type 0} (m : M A) (f : A → M B) (s s' : Segment) (a : A)
    → m s ≡ (ok a, s')
    → (m >>= f) s ≡ f a s'
unfolding ◌>>=◌
bind-ok m f s s' a e = ap (λ r. hand_on r f) e

pub then-ok :
    {B : Type 0} (m : M (Unit {0})) (k : M B) (s s' : Segment)
    → m s ≡ (ok tt, s')
    → (m >> k) s ≡ k s'
unfolding ◌>>◌
then-ok m k s s' e = bind-ok m (λ _. k) s s' tt e

module _ (size offset pos current_size max_size : ℕ) where
  pub seek_end_footer-ok :
      (bytes xs ys : List ℕ)
      → bytes ≡ xs ++ ys
      → length ys ≡ 8
      → seek_end_footer (on_disk size bytes offset pos current_size max_size)
        ≡ (ok tt, on_disk size bytes (length xs) pos current_size max_size)
  unfolding seek_end_footer with_file
  seek_end_footer-ok bytes xs ys e eight =
      let n : length bytes ≡ length xs + 8 =
        ap length e ∙ omega (arith, length-append xs ys, eight) in
      let long : ltb (length bytes) 8 ≡ false = ground arith in
      let back : length bytes - 8 ≡ length xs = omega arith in rw (long, back)

  pub seek-ok :
      (bytes : List ℕ) (to : ℕ)
      → to < 2 ^ 63
      → seek to (on_disk size bytes offset pos current_size max_size)
        ≡ (ok tt, on_disk size bytes to pos current_size max_size)
  unfolding seek with_file
  seek-ok bytes to small = let positive : leb (2 ^ 63) to ≡ false = ground arith in rw positive

  pub seek_to_current-ok :
      (bytes : List ℕ)
      → pos < 2 ^ 63
      → seek_to_current (on_disk size bytes offset pos current_size max_size)
        ≡ (ok tt, on_disk size bytes pos pos current_size max_size)
  unfolding seek_to_current
  seek_to_current-ok bytes small = seek-ok bytes pos small

  -- A write over the last bytes of the file, or behind them.
  pub write_bytes-ok :
      (bytes xs ys b : List ℕ)
      → bytes ≡ xs ++ ys
      → offset ≡ length xs
      → length ys ≤ length b
      → write_bytes b (on_disk size bytes offset pos current_size max_size)
        ≡ (ok tt, on_disk size (xs ++ b) (length (xs ++ b)) pos current_size max_size)
  unfolding write_bytes with_file
  write_bytes-ok bytes xs ys b e at covered =
      let end : offset + length b ≡ length (xs ++ b) = omega (arith, length-append xs b) in
      let written : write_at offset b bytes ≡ xs ++ b =
        ap (write_at offset b) e
        ∙ write_at-append xs ys b offset at
        ∙ rw (drop-all ys (length b) covered, append-nil) in
      rw (end, written)

  pub write_uint64-ok :
      (bytes xs ys : List ℕ) (n : ℕ)
      → bytes ≡ xs ++ ys
      → offset ≡ length xs
      → length ys ≤ 8
      → write_uint64 n (on_disk size bytes offset pos current_size max_size) ≡ (
        ok tt,
        on_disk size (xs ++ put_uint64 n) (length (xs ++ put_uint64 n)) pos current_size max_size,
      )
  unfolding write_uint64
  write_uint64-ok bytes xs ys n e at covered =
      write_bytes-ok bytes xs ys (put_uint64 n) e at (omega (arith, length-put_uint64 n))

  -- A read of bytes that are there.
  pub read_bytes-ok :
      (bytes xs b ys : List ℕ) (n : ℕ)
      → bytes ≡ xs ++ (b ++ ys)
      → offset ≡ length xs
      → n ≡ length b
      → 0 < n
      → read_bytes n (on_disk size bytes offset pos current_size max_size)
        ≡ (ok b, on_disk size bytes (offset + n) pos current_size max_size)
  unfolding read_bytes with_file
  read_bytes-ok bytes xs b ys n e at asked some_byte =
      let got : read_at offset n bytes ≡ b =
        ap (read_at offset n) e ∙ read_at-append xs (b ++ ys) offset n at ∙ take-all b ys n asked in
      let total : length bytes ≡ length xs + length b + length ys =
        ap length e ∙ omega (arith, length-append xs (b ++ ys), length-append b ys) in
      let more : (n == 0) ≡ false = ground arith in
      let inside : leb (length bytes) offset ≡ false = ground arith in
      let whole : (length b == n) ≡ true = ground arith in rw (got, more, inside, whole, ← asked)

  pub read_uint64-ok :
      (bytes xs ys : List ℕ) (n : ℕ)
      → bytes ≡ xs ++ (put_uint64 n ++ ys)
      → offset ≡ length xs
      → n < 2 ^ 64
      → read_uint64 (on_disk size bytes offset pos current_size max_size)
        ≡ (ok n, on_disk size bytes (offset + 8) pos current_size max_size)
  unfolding read_uint64
  read_uint64-ok bytes xs ys n e at small =
      bind-ok (read_bytes 8) _ _ _ _
        (read_bytes-ok bytes xs (put_uint64 n) ys 8 e at (sym (length-put_uint64 n)) (omega arith))
      ∙ rw (uint64-put_uint64 n small)
