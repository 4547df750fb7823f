-- ===== src/Hh/Segment.antt =====
-- services/hh/queue.go: `segment`, a queue in one file: blocks, each with its length before it, and
-- the position of the head block in the last eight bytes. An `int64` is its bit pattern. The path
-- and the modification time are left out.
pub mod Layout
mod Steps
pub mod Writes
pub mod Reads
pub mod Advance
pub mod Reopen
pub mod Fifo
use chronus.Base.{
  ℕ, zero, suc, ◌+◌, ◌-◌, ◌%◌, ◌^◌, ◌≡◌, Bool, true, false, List, [], ◌∷◌, Option, none, some,
  Outcome, ok, err, panic, length, ◌==◌, ltb, leb, if◌then◌else◌,
}
use chronus.Hh.Bytes.{put_uint64, uint64, int_ltb}
use chronus.Hh.Disk.{File, write_at, read_at}

pub data Error : Type 0 where
  not_open queue_full segment_full eof invalid bad_read record_size_out_of_range queue_is_open :
      Error

-- A nil file is closed.
pub record Segment : Type 0 where
  pub size : ℕ
  pub file : Option File
  pub pos : ℕ
  pub current_size : ℕ
  pub max_size : ℕ

-- A method: the result, and the segment that it leaves, also where it fails.
abbrev pub M : Type 0 → Type 0
M A = Segment → Outcome Error A × Segment

-- A step that fails ends the method.
abbrev pub hand_on :
    {A B : Type 0} → Outcome Error A × Segment → (A → M B) → Outcome Error B × Segment
hand_on (ok a, s) f = f a s
hand_on (err e, s) f = (err e, s)
hand_on (panic, s) f = (panic, s)

infixl 5 ◌>>=◌ ◌>>◌
unfoldable pub ◌>>=◌ : {A B : Type 0} → M A → (A → M B) → M B
◌>>=◌ m f s = hand_on (m s) f

unfoldable pub ◌>>◌ : {B : Type 0} → M (Unit {0}) → M B → M B
m >> k = m >>= λ _. k

abbrev pub pure : {A : Type 0} → A → M A
pure a s = (ok a, s)

abbrev pub fail : {A : Type 0} → Error → M A
fail e s = (err e, s)

-- int64 subtraction of the footer's size.
abbrev pub footer_pos : ℕ → ℕ
footer_pos size = (size + 2 ^ 64 - 8) % 2 ^ 64

-- A call on the file; on a nil file it is os.ErrInvalid.
unfoldable pub with_file : {A : Type 0} → (File → Outcome Error A × File) → M A
with_file call s = elim s.file [
  | none ↦ (err invalid, s)
  | some f ↦ let (result, f') = call f in (result, record s { file = some f' })
]

-- A negative offset is refused.
unfoldable pub seek : ℕ → M (Unit {0})
seek pos =
    with_file
      (λ f. if leb (2 ^ 63) pos then (err invalid, f) else (ok tt, record f { offset = pos }))

unfoldable pub seek_end_footer : M (Unit {0})
seek_end_footer = with_file λ f.
    let n = length f.bytes in
    if ltb n 8 then (err invalid, f) else (ok tt, record f { offset = n - 8 })

unfoldable pub seek_to_current : M (Unit {0})
seek_to_current s = seek s.pos s

unfoldable pub write_bytes : List ℕ → M (Unit {0})
write_bytes b =
    with_file
      (λ f. (ok tt, record f { bytes = write_at f.offset b f.bytes; offset = f.offset + length b }))

unfoldable pub write_uint64 : ℕ → M (Unit {0})
write_uint64 n = write_bytes (put_uint64 n)

-- `File.Read` gives what is there, io.EOF at the end, and readBytes refuses a short read. A read of
-- no bytes succeeds everywhere.
unfoldable pub read_bytes : ℕ → M (List ℕ)
read_bytes n = with_file λ f.
    let got = read_at f.offset n f.bytes in
    let f' = record f { offset = f.offset + length got } in
    if n == 0
    then (ok [], f)
    else if leb (length f.bytes) f.offset
    then (err eof, f)
    else if length got == n
    then (ok got, f')
    else (err bad_read, f')

unfoldable pub read_uint64 : M ℕ
read_uint64 = do b ← read_bytes 8; pure (uint64 b)

-- Assignments to the fields.
unfoldable pub set_pos : ℕ → M (Unit {0})
set_pos pos s = (ok tt, record s { pos = pos })

unfoldable pub set_current_size : ℕ → M (Unit {0})
set_current_size n s = (ok tt, record s { current_size = n })

unfoldable pub set_size : ℕ → M (Unit {0})
set_size n s = (ok tt, record s { size = n })

unfoldable pub open_new : M (Unit {0})
open_new = do set_pos 0; set_current_size 0; write_uint64 0; set_size 8

-- The current size is read unless the head is at the end.
unfoldable pub open_current : M (Unit {0})
open_current s =
    (if int_ltb s.pos (footer_pos s.size) then read_uint64 >>= set_current_size else pure tt) s

unfoldable pub open_existing : M (Unit {0})
open_existing = do seek_end_footer; pos ← read_uint64; set_pos pos; seek_to_current; open_current

unfoldable pub open_segment : M (Unit {0})
open_segment s = (if s.size == 0 then open_new else open_existing) s

-- newSegment: the file as it is found, and the maximal size.
unfoldable pub new_segment : List ℕ → ℕ → Outcome Error (Unit {0}) × Segment
new_segment bytes max_size = open_segment (record {
  size = length bytes;
  file = some (record { bytes = bytes; offset = 0 });
  pos = 0;
  current_size = 0;
  max_size = max_size;
})

-- The writes of `append`, and what it does to the sizes.
unfoldable pub append_block : List ℕ → M (Unit {0})
append_block b s =
    (do
      seek_end_footer
      write_uint64 (length b)
      write_bytes b
      write_uint64 s.pos
      set_current_size (if s.current_size == 0 then length b else s.current_size)
      set_size ((s.size + length b + 8) % 2 ^ 64))
      s

unfoldable pub append : List ℕ → M (Unit {0})
append b s = elim s.file [
  | none ↦ (err not_open, s)
  | some f ↦
      if int_ltb s.max_size ((s.size + length b) % 2 ^ 64)
      then (err segment_full, s)
      else append_block b s
]

-- The block behind its length; `make` panics on a negative length.
unfoldable pub read_block : ℕ → M (List ℕ)
read_block n s =
    if int_ltb s.max_size n
    then (err record_size_out_of_range, s)
    else if leb (2 ^ 63) n
    then (panic, s)
    else read_bytes n s

unfoldable pub current : M (List ℕ)
current s =
    if s.pos == footer_pos s.size
    then (err eof, s)
    else (do seek_to_current; n ← read_uint64; set_current_size n; read_block n) s

-- The end of `advance`: at the end of the file there is no current block.
unfoldable pub check_end : M (Unit {0})
check_end s =
    if s.pos == footer_pos s.size then (err eof, record s { current_size = 0 }) else (ok tt, s)

unfoldable pub advance_to : ℕ → M (Unit {0})
advance_to pos = do
  seek_end_footer
  write_uint64 pos
  set_pos pos
  seek_to_current
  n ← read_uint64
  set_current_size n
  check_end

unfoldable pub advance : M (Unit {0})
advance s = elim s.file [
  | none ↦ (err not_open, s)
  | some f ↦
      if s.pos == footer_pos s.size
      then (err eof, record s { current_size = 0 })
      else advance_to ((s.pos + s.current_size + 8) % 2 ^ 64) s
]

unfoldable pub close : M (Unit {0})
close s = elim s.file [ none ↦ (err invalid, s) | some f ↦ (ok tt, record s { file = none }) ]

unfoldable pub set_max_segment_size : ℕ → Segment → Segment
set_max_segment_size n s = record s { max_size = n }
