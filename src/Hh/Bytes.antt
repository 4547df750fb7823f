-- ===== src/Hh/Bytes.antt =====
-- encoding/binary: `BigEndian.PutUint64` and `BigEndian.Uint64`. An `int64` is kept as its bit
-- pattern, a number below 2 ^ 64.
use chronus.Base.{ℕ, ◌+◌, ◌*◌, ◌/◌, ◌%◌, ◌^◌, ◌<◌, ◌≡◌, Bool, List, [], ◌∷◌, arith, ltb}

unfoldable pub put_uint64 : ℕ → List ℕ
put_uint64 n =
    n / 2 ^ 56 % 256
    ∷ n / 2 ^ 48 % 256
    ∷ n / 2 ^ 40 % 256
    ∷ n / 2 ^ 32 % 256
    ∷ n / 2 ^ 24 % 256
    ∷ n / 2 ^ 16 % 256
    ∷ n / 2 ^ 8 % 256
    ∷ n % 256
    ∷ []

-- The number of the bytes, the first the most significant.
from_bytes : ℕ → List ℕ → ℕ
from_bytes acc [] = acc
from_bytes acc (b ∷ bs) = from_bytes (acc * 256 + b) bs

unfoldable pub uint64 : List ℕ → ℕ
unfolding from_bytes
uint64 bs = from_bytes 0 bs

-- a < b as `int64`.
unfoldable pub int_ltb : ℕ → ℕ → Bool
int_ltb a b = ltb ((a + 2 ^ 63) % 2 ^ 64) ((b + 2 ^ 63) % 2 ^ 64)

pub uint64-put_uint64 : (n : ℕ) → n < 2 ^ 64 → uint64 (put_uint64 n) ≡ n
unfolding uint64 put_uint64
uint64-put_uint64 n h = omega arith

-- On small numbers the signed order is the order.
pub int_ltb-small : (a b : ℕ) → a < 2 ^ 63 → b < 2 ^ 63 → int_ltb a b ≡ ltb a b
unfolding int_ltb
int_ltb-small a b ha hb = ground arith
