-- ===== src/X/Tests.antt =====
-- A buffer of four bytes, and instances of the theorems on it.
use chronus.Base.{ℕ, ◌≡◌, refl, true, List, [], ◌∷◌, ok, ◌>>=◌, arith}
use chronus.X.CyclicBuffer.{
  new_cyclic_buffer, write, write_bytes, forward, dump, dump_loop, dump_round, compare, read_next,
}
use chronus.Hh.Bytes.{int_ltb}
use chronus.X.CyclicBuffer.Written.{write_all}
use chronus.X.CyclicBuffer.Dumped.{dump-newest}
use chronus.X.CyclicBuffer.Compared.{compare-held}

abbrev writes : List (List ℕ)
writes = (1 ∷ 2 ∷ 3 ∷ []) ∷ (4 ∷ 5 ∷ []) ∷ []

dump_test :
    (write_all writes (new_cyclic_buffer 4) >>= λ c. dump c (0 ∷ 0 ∷ 0 ∷ 0 ∷ 9 ∷ []))
    ≡ ok (4, 2 ∷ 3 ∷ 4 ∷ 5 ∷ 9 ∷ [])
unfolding new_cyclic_buffer write write_bytes forward dump dump_loop dump_round read_next int_ltb
dump_test = refl

dump-newest_example :
    (write_all writes (new_cyclic_buffer 4) >>= λ c. dump c (0 ∷ 0 ∷ 0 ∷ 0 ∷ 9 ∷ []))
    ≡ ok (4, 2 ∷ 3 ∷ 4 ∷ 5 ∷ 9 ∷ [])
dump-newest_example =
    dump-newest writes 4 (0 ∷ 0 ∷ 0 ∷ 0 ∷ 9 ∷ []) (omega arith) (omega arith) (omega arith)
      (omega arith)

compare-held_example :
    (write_all writes (new_cyclic_buffer 4) >>= λ c. compare c (2 ∷ 3 ∷ 4 ∷ 5 ∷ [])) ≡ ok true
compare-held_example = compare-held writes 4 (2 ∷ 3 ∷ 4 ∷ 5 ∷ []) (omega arith) (omega arith)
