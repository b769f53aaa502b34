-- ===== src/Romgen/Chunk.antt =====
-- tools/romgen.c, `ck_pad`, `ck_open`, `ck_close` and `ck_blob`: the chunks of a MINX container.
pub mod Frame
pub mod Blob
use sdcc.Common.{
  ℕ, zero, suc, ◌+◌, ◌-◌, ◌*◌, ◌/◌, ◌%◌, ◌^◌, ◌≤◌, ◌<◌, ◌≡◌, refl, Bool, true, false, List, [], ◌∷◌,
  ◌++◌, arith, leb, ltb, ◌==◌, if◌then◌else◌, length, replicate, take, u32,
}
use sdcc.Romgen.Buffer.{Buf, buf_put, buf_u32, wle32}

unfoldable pub ck_pad : Buf → Buf
ck_pad b =
    let r = length b.bytes % 4 in if r == 0 then b else buf_put b (take (4 - r) (0 ∷ 0 ∷ 0 ∷ []))

-- The buffer, and the position of the size that `ck_close` patches.
unfoldable pub ck_open : Buf → List ℕ → Buf × ℕ
ck_open b id = let b' = buf_u32 (buf_put b id) 0 in (b', length b'.bytes - 4)

unfoldable pub ck_close : Buf → ℕ → Buf
ck_close b szpos =
    ck_pad (record b { bytes = wle32 b.bytes szpos (u32 (length b.bytes - (szpos + 4))) })

unfoldable pub ck_blob : Buf → List ℕ → List ℕ → Buf
ck_blob b id payload = let (b', szpos) = ck_open b id in ck_close (buf_put b' payload) szpos
