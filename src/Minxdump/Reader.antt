-- ===== src/Minxdump/Reader.antt =====
-- tools/minxdump.c, `rle16`, `rle32`, `next_chunk` and `find_chunk`. A file is a list of bytes; a
-- read behind its end, which `next_chunk` never makes, gives 0.
use sdcc.Common.{
  ℕ, zero, suc, ◌+◌, ◌*◌, ◌/◌, Bool, true, false, ◌&&◌, List, [], ◌∷◌, ltb, ◌==◌, if◌then◌else◌,
  get_or, take, drop, bit_or, shl, u32,
}

abbrev pub File : Type 0
File = List ℕ

abbrev pub byte : File → ℕ → ℕ
byte file p = get_or file p 0

unfoldable pub rle16 : File → ℕ → ℕ
rle16 file p = bit_or (byte file p) (shl (byte file (p + 1)) 8)

unfoldable pub rle32 : File → ℕ → ℕ
unfolding rle16
rle32 file p = bit_or (rle16 file p) (u32 (shl (rle16 file (p + 2)) 16))

-- A chunk's id, and where its payload lies.
pub record Chunk : Type 0 where
  pub id : List ℕ
  pub payload : ℕ
  pub size : ℕ

-- `found` carries the new position. `overrun` is the failure "chunk overruns its container".
pub data Next : Type 0 where
  at_end overrun : Next
  found : Chunk → ℕ → Next

-- `(x + 3u) & ~3u`: the mask is a 32-bit word, and drops what lies above it.
abbrev pub pad4 : ℕ → ℕ
pad4 x = u32 (x + 3) / 4 * 4

unfoldable pub next_chunk : File → ℕ → ℕ → Next
next_chunk file pos end =
    if ltb end (pos + 8)
    then at_end
    else let size = rle32 file (pos + 4) in
      let payload = pos + 8 in
      if ltb end (payload + size)
      then overrun
      else found (record { id = take 4 (drop pos file); payload = payload; size = size })
          (pad4 (payload + size))

-- The comparison of two ids by `memcmp` over four bytes.
unfoldable pub same_id : List ℕ → List ℕ → Bool
same_id [] [] = true
same_id (x ∷ xs) (y ∷ ys) = x == y && same_id xs ys
same_id _ _ = false

-- `stuck` only if the fuel runs out.
pub data Search : Type 0 where
  missing broken stuck : Search
  hit : Chunk → Search

unfoldable pub find_chunk : ℕ → File → ℕ → ℕ → List ℕ → Search
find_chunk zero file pos end want = stuck
find_chunk (suc fuel) file pos end want = elim (next_chunk file pos end) [
  | at_end ↦ missing
  | overrun ↦ broken
  | found c next ↦ elim (same_id c.id want) [
    | true ↦ hit c
    | false ↦ find_chunk fuel file next end want
  ]
]
