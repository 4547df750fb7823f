-- ===== src/Coordinator/IteratorReader.antt =====
-- coordinator/remote_executor.go: iteratorReader, which gives the bytes of a connection up to a
-- terminator. What the connection answers to a Read is an argument: the bytes that it puts in front
-- of the slice, and its error.
pub mod Shifted
mod Chunks
pub mod Steps
pub mod Delivered
use chronus.Base.{
  ℕ, zero, suc, ◌+◌, ◌-◌, Bool, true, false, List, [], ◌∷◌, ◌++◌, Option, none, some, Outcome, ok,
  ◌>>=◌, length, get_or, set, take, drop, replicate, ltb, ◌==◌, if◌then◌else◌,
}
use chronus.X.Math.{min_of}
use chronus.X.CyclicBuffer.{CyclicBuffer, Run, new_cyclic_buffer, dump, write, compare}

pub data ReadError (E : Type 0) : Type 0 where
  eof : ReadError E
  other : E → ReadError E

pub record Reader : Type 0 where
  pub terminator : List ℕ
  pub buf : List ℕ
  pub judger : CyclicBuffer
  pub terminated : Bool
  pub bytes : ℕ

unfoldable pub new_iterator_reader : List ℕ → Reader
new_iterator_reader terminator = record {
  terminator = terminator;
  buf = replicate (length terminator) 0;
  judger = new_cyclic_buffer (length terminator);
  terminated = false;
  bytes = 0;
}

-- data[i] = data[i-offset] for the `k` indices i from the offset on, the last first.
unfoldable pub shift_from : ℕ → ℕ → List ℕ → List ℕ
shift_from zero offset data_ = data_
shift_from (suc k) offset data_ = shift_from k offset (set data_ (offset + k) (get_or data_ k 0))

-- data[i] = header[i], from the index `i` on.
unfoldable pub put_header : ℕ → List ℕ → List ℕ → List ℕ
put_header i [] data_ = data_
put_header i (b ∷ header) data_ = put_header (suc i) header (set data_ i b)

unfoldable pub shift_buffer : List ℕ → List ℕ → List ℕ
shift_buffer data_ header =
    let offset = length header in
    if ltb (length data_) offset
    then data_
    else put_header 0 header (shift_from (length data_ - offset) offset data_)

-- The number of bytes, the error and the slice that a Read leaves.
pub record Answer (E : Type 0) : Type 0 where
  pub n : ℕ
  pub error : Option (ReadError E)
  pub slice : List ℕ

module _ {E : Type 0} where
  -- Behind the comparison with the terminator; `before` is the number of bytes before this Read.
  unfoldable pub answer : ℕ → ℕ → Option (ReadError E) → List ℕ → Reader → Bool → Answer E × Reader
  answer before n error p r ended = (
    record {
      n = if ltb before (length r.buf) then n - (length r.buf - before) else n;
      error = if ended then some eof else error;
      slice = p;
    },
    record r { terminated = ended },
  )

  -- Once the bytes are read: `p` is the slice with them in front.
  unfoldable pub read_some : Reader → List ℕ → ℕ → Option (ReadError E) → Run (Answer E × Reader)
  read_some r p n error = dump r.judger r.buf >>= λ d. write (take n p) r.judger >>= λ judger.
      let r' = record r { buf = d.1; judger = judger; bytes = r.bytes + n } in
      let judged = compare judger r.terminator >>= λ ended.
      ok (answer r.bytes n error (shift_buffer p (take (min_of d.0 (n ∷ [])) d.1)) r' ended) in
      if ltb (r.bytes + n) (length r.terminator)
      then ok (record { n = 0; error = none; slice = p }, r')
      else judged

  -- Read, into a slice `p`.
  unfoldable pub read : Reader → List ℕ → List ℕ × Option (ReadError E) → Run (Answer E × Reader)
  read r p (bytes, error) =
      let some_ = read_some r (bytes ++ drop (length bytes) p) (length bytes) error in
      if r.terminated
      then ok (record { n = 0; error = some eof; slice = p }, r)
      else (if length bytes == 0 then ok (record { n = 0; error = error; slice = p }, r) else some_)
