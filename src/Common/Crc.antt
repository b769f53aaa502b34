-- ===== src/Common/Crc.antt =====
-- tools/romgen.c and tools/minxdump.c, `crc32_buf`, which has the same body in both.
use sdcc.Common.Word.{shr, u32}
use Prim.Native.Nat.{ℕ, zero, suc, ◌-◌, ◌%◌, ◌^◌, ◌<◌, bit_and, bit_xor}
use mathlib.Core.List.{List, [], ◌∷◌}
use native.Mathlib.Omega.{arith}

-- `c = (c >> 1) ^ (0xEDB88320u & (0u - (c & 1u)))`
abbrev crc_bit : ℕ → ℕ
crc_bit c = bit_xor (shr c 1) (bit_and 0xEDB88320 (u32 (2 ^ 32 - c % 2)))

abbrev crc_bits : ℕ → ℕ → ℕ
crc_bits zero c = c
crc_bits (suc k) c = crc_bits k (crc_bit c)

abbrev crc_bytes : ℕ → List ℕ → ℕ
crc_bytes c [] = c
crc_bytes c (b ∷ bs) = crc_bytes (crc_bits 8 (bit_xor c b)) bs

-- `~c` is the distance from the largest word.
unfoldable pub crc32_buf : List ℕ → ℕ
crc32_buf p = 2 ^ 32 - 1 - u32 (crc_bytes 0xFFFFFFFF p)

pub crc32_buf-lt : (p : List ℕ) → crc32_buf p < 2 ^ 32
unfolding crc32_buf
crc32_buf-lt p = omega arith
