-- ===== src/Minxdump/Flat.antt =====
-- tools/minxdump.c, `main`: the flat ROM image is put together again from the SEG chunks.
pub mod Chunks
pub mod Seg
pub mod Image
pub mod Same
pub mod Recover
use sdcc.Common.{
  ℕ, zero, suc, ◌+◌, ◌-◌, ◌*◌, ◌≤◌, ◌<◌, Bool, true, false, ◌&&◌, List, [], ◌∷◌, ◌++◌, Option, none,
  some, arith, leb, ltb, if◌then◌else◌, length, take, drop, replicate, u32,
}
use sdcc.Minxdump.Reader.{
  File, rle32, Chunk, Next, at_end, overrun, found, next_chunk, same_id, Search, find_chunk, hit,
  missing, broken,
}

abbrev pub cart_base : ℕ
cart_base = 0x2100

-- `failed` is a walk that ended at a chunk which overruns its container: `next_chunk` has counted
-- a failure, and the tool goes on with what it has. `stuck` only if the fuel runs out.
pub data Walk {ℓ} (S : Type ℓ) : Type ℓ where
  walked failed : S → Walk S
  stuck : Walk S

-- `while (next_chunk (…)) body`, on fuel.
unfoldable pub each_chunk {ℓ} : {S : Type ℓ} → ℕ → File → ℕ → ℕ → (Chunk → S → S) → S → Walk S
each_chunk zero file pos end body s = stuck
each_chunk (suc fuel) file pos end body s = elim (next_chunk file pos end) [
  | at_end ↦ walked s
  | overrun ↦ failed s
  | found c next ↦ each_chunk fuel file next end body (body c s)
]

abbrev pub seg_id : List ℕ
seg_id = b'S' ∷ b'E' ∷ b'G' ∷ b' ' ∷ []

abbrev pub is_seg : Chunk → Bool
is_seg c = same_id c.id seg_id && leb 4 c.size

-- `phys - CART_BASE + len`, where the chunk is not below the cartridge.
abbrev pub end_of : File → Chunk → ℕ
end_of file c = u32 (rle32 file c.payload - cart_base + (c.size - 4))

-- The bodies of the two loops: the size of the image, and the copy into it.
unfoldable pub grow_end : File → Chunk → ℕ → ℕ
grow_end file c maxend =
    if is_seg c
    then if leb cart_base (rle32 file c.payload) && ltb maxend (end_of file c)
      then end_of file c
      else maxend
    else maxend

-- `memcpy` of a list into an array.
unfoldable pub copy_at : List ℕ → ℕ → List ℕ → List ℕ
copy_at [] p src = []
copy_at (x ∷ xs) zero [] = x ∷ xs
copy_at (x ∷ xs) zero (v ∷ vs) = v ∷ copy_at xs zero vs
copy_at (x ∷ xs) (suc p) src = x ∷ copy_at xs p src

unfoldable pub copy_seg : ℕ → File → Chunk → List ℕ → List ℕ
copy_seg maxend file c flat =
    if is_seg c
    then if leb cart_base (rle32 file c.payload) && leb (end_of file c) maxend
      then copy_at flat (rle32 file c.payload - cart_base)
          (take (c.size - 4) (drop (c.payload + 4) file))
      else flat
    else flat

-- Behind the first walk: the block of 0xFF bytes, and the second walk over the same chunks.
unfoldable pub fill : File → ℕ → ℕ → Walk ℕ → Walk (List ℕ)
fill file pos end (walked maxend) =
    each_chunk (suc end) file pos end (copy_seg maxend file) (replicate maxend 0xFF)
fill file pos end (failed maxend) =
    each_chunk (suc end) file pos end (copy_seg maxend file) (replicate maxend 0xFF)
fill file pos end stuck = stuck

unfoldable pub flat_rom : File → ℕ → ℕ → Walk (List ℕ)
flat_rom file pos end = fill file pos end (each_chunk (suc end) file pos end (grow_end file) 0)

abbrev pub rom_id : List ℕ
rom_id = b'R' ∷ b'O' ∷ b'M' ∷ b' ' ∷ []

-- The reconstruction in `main`: nothing, where there is no ROM chunk.
unfoldable pub recovered : File → Search → Option (Walk (List ℕ))
recovered file (hit c) = some (flat_rom file c.payload (c.payload + c.size))
recovered file missing = none
recovered file broken = none
recovered file Search.stuck = none

unfoldable pub recover : File → ℕ → ℕ → Option (Walk (List ℕ))
unfolding recovered
recover file top end = recovered file (find_chunk (suc end) file top end rom_id)
