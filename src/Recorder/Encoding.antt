-- ===== src/Recorder/Encoding.antt =====
-- intoBytes and fromBytes of mod.go at an int64: eight bytes, the highest first.
use sophon_miner.Prelude.{
  [], arith, if◌then◌else◌, length, ltb, suc, take, zero, ℕ, ◌%◌, ◌*◌, ◌+◌, ◌-◌, ◌/◌, ◌^◌, ◌∷◌, ◌≡◌,
}
use sophon_miner.Prelude.Int.{FitsInt64, int64, negsuc, pos, ℤ}
use sophon_miner.Types.{Bytes}

abbrev two64 : ℕ
two64 = 18446744073709551616

-- The bit pattern of an int64.
abbrev bits64 : ℤ → ℕ
bits64 (pos n) = n
bits64 (negsuc n) = 18446744073709551615 - n

big_endian : ℕ → ℕ → Bytes
big_endian zero n = []
big_endian (suc k) n = (n / 256 ^ k % 256) ∷ big_endian k n

unfoldable pub into_bytes : ℤ → Bytes
unfolding big_endian
into_bytes z = big_endian 8 (bits64 z)

read_all : Bytes → ℕ → ℕ
read_all [] acc = acc
read_all (b ∷ bs) acc = read_all bs (acc * 256 + b)

-- A read of fewer than eight bytes fails, and the epoch keeps its zero value; more are not read.
unfoldable pub from_bytes : Bytes → ℤ
unfolding read_all
from_bytes b = if ltb (length b) 8 then pos 0 else int64 (pos (read_all (take 8 b) 0))

-- An epoch that fits in an int64 is read back as it was written.
pub from_bytes-into_bytes : (z : ℤ) → FitsInt64 z → from_bytes (into_bytes z) ≡ z
unfolding from_bytes into_bytes int64
from_bytes-into_bytes (pos n) h = ground arith
from_bytes-into_bytes (negsuc n) h = ground arith
