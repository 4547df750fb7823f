-- ===== src/X/CyclicBuffer.antt =====
-- x/cyclic_buffer.go: CyclicBuffer, the last bytes of a stream. A byte is a number below 256, and
-- an index out of range is a panic; there are no errors. `cnt` is an int, kept as its bit pattern.
pub mod Contents
pub mod Written
pub mod Dumped
pub mod Compared
use chronus.Base.{
  ℕ, zero, suc, ◌+◌, ◌-◌, ◌%◌, ◌^◌, Bool, true, false, List, [], ◌∷◌, Outcome, ok, panic, ◌>>=◌,
  length, get_or, set, drop, replicate, ltb, leb, ◌==◌, if◌then◌else◌,
}
use chronus.Hh.Bytes.{int_ltb}

pub record CyclicBuffer : Type 0 where
  pub buf : List ℕ
  pub pos : ℕ
  pub cnt : ℕ

unfoldable pub new_cyclic_buffer : ℕ → CyclicBuffer
new_cyclic_buffer capacity = record { buf = replicate capacity 0; pos = 0; cnt = 0 }

abbrev pub Run : Type 0 → Type 0
Run A = Outcome (Unit {0}) A

-- xs[i]
abbrev pub get_elem : List ℕ → ℕ → Run ℕ
get_elem xs i = if ltb i (length xs) then ok (get_or xs i 0) else panic

-- xs[i] = v
abbrev pub set_elem : List ℕ → ℕ → ℕ → Run (List ℕ)
set_elem xs i v = if ltb i (length xs) then ok (set xs i v) else panic

unfoldable pub forward : CyclicBuffer → CyclicBuffer
forward c = record c { pos = if leb (length c.buf) (c.pos + 1) then 0 else c.pos + 1 }

-- The loop of `write`, on the bytes from the offset on.
unfoldable pub write_bytes : List ℕ → CyclicBuffer → Run CyclicBuffer
write_bytes [] c = ok c
write_bytes (b ∷ bs) c =
    set_elem c.buf c.pos b >>= λ buf. write_bytes bs (forward (record c { buf = buf }))

-- Write; what the buffer cannot hold is skipped.
unfoldable pub write : List ℕ → CyclicBuffer → Run CyclicBuffer
write data_ c =
    let sz = length data_ in
    let offset = if ltb sz (length c.buf) then 0 else sz - length c.buf in
    let written = write_bytes (drop offset data_) (record c { cnt = (c.cnt + sz) % 2 ^ 64 }) in
    if ltb sz 1 then ok c else written

unfoldable pub cap : CyclicBuffer → ℕ
cap c = length c.buf

unfoldable pub len : CyclicBuffer → ℕ
len c = c.cnt

-- posRead or pos, after a byte is read.
unfoldable pub read_next : ℕ → ℕ → ℕ
read_next l pos = if leb l (pos + 1) then (pos + 1) % l else pos + 1

pub record Dump : Type 0 where
  pub pos_read : ℕ
  pub pos_write : ℕ
  pub skip : ℕ
  pub out : List ℕ

unfoldable pub dump_round : List ℕ → Dump → Run Dump
dump_round buf d =
    let copied = get_elem buf d.pos_read >>= λ b. set_elem d.out d.pos_write b >>= λ out.
    ok (record d {
      pos_read = read_next (length buf) d.pos_read;
      pos_write = d.pos_write + 1;
      out = out;
    }) in
    if int_ltb 0 d.skip
    then ok (record d { pos_read = read_next (length buf) d.pos_read; skip = d.skip - 1 })
    else copied

unfoldable pub dump_loop : ℕ → List ℕ → Dump → Run Dump
dump_loop zero buf d = ok d
dump_loop (suc n) buf d = dump_round buf d >>= λ d'. dump_loop n buf d'

-- Dump into `data`: the number of bytes that are written there, and the slice then.
unfoldable pub dump : CyclicBuffer → List ℕ → Run (ℕ × List ℕ)
dump c data_ =
    let done = dump_loop (length c.buf) c.buf (record {
      pos_read = c.pos;
      pos_write = 0;
      skip = (length c.buf + 2 ^ 64 - c.cnt) % 2 ^ 64;
      out = data_;
    }) in
    if ltb (length data_) (length c.buf)
    then ok (0, data_)
    else (done >>= λ d. ok (d.pos_write, d.out))

-- The loop of Compare, which `start` ends.
unfoldable pub compare_from : List ℕ → ℕ → List ℕ → ℕ → Run Bool
compare_from buf start [] pos = ok true
compare_from buf start (b ∷ bs) pos =
    let next = read_next (length buf) pos in
    let rest = compare_from buf start bs next in
    get_elem buf pos >>= λ x. if b == x then (if next == start then ok true else rest) else ok false

unfoldable pub compare : CyclicBuffer → List ℕ → Run Bool
compare c data_ =
    if length c.buf == length data_ then compare_from c.buf c.pos data_ c.pos else ok false
