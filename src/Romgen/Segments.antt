-- ===== src/Romgen/Segments.antt =====
-- tools/romgen.c, `main`: the ROM container of a MINX file, one SEG for each run of defined bytes.
pub mod Runs
pub mod Written
pub mod Size
use sdcc.Common.{
  ℕ, zero, suc, ◌+◌, ◌-◌, ◌≤◌, ◌<◌, Bool, true, false, ◌&&◌, List, [], ◌∷◌, ◌++◌, ltb, ◌==◌, not,
  if◌then◌else◌, length, take, drop, u32,
}
use sdcc.Romgen.Address.{cart_base}
use sdcc.Romgen.Buffer.{Buf, buf_put, buf_u32}
use sdcc.Romgen.Chunk.{ck_open, ck_close}
use sdcc.Romgen.Rom.{Rom}
use sdcc.Romgen.Rom.Store.{mark_at}

abbrev pub rom_id : List ℕ
rom_id = b'R' ∷ b'O' ∷ b'M' ∷ b' ' ∷ []

abbrev pub seg_id : List ℕ
seg_id = b'S' ∷ b'E' ∷ b'G' ∷ b' ' ∷ []

-- `while (off < size && wr[off]) off++`, on fuel.
unfoldable pub run_end : ℕ → Rom → ℕ → ℕ
run_end zero r off = off
run_end (suc fuel) r off =
    let further = run_end fuel r (off + 1) in
    if ltb off r.size && not (mark_at r off == 0) then further else off

abbrev pub slice : List ℕ → ℕ → ℕ → List ℕ
slice xs start end = take (end - start) (drop start xs)

-- One SEG chunk: the physical address of the run, and its bytes.
unfoldable pub put_seg : Rom → ℕ → ℕ → Buf → Buf
put_seg r start end body =
    let opened = ck_open body seg_id in
    ck_close (buf_put (buf_u32 opened.0 (u32 (cart_base + start))) (slice r.img start end)) opened.1

-- What a round of the outer loop finds at `off`.
pub data Scan : Type 0 where
  stop gap : Scan
  run_to : ℕ → Scan

unfoldable pub scan : Rom → ℕ → Scan
scan r off =
    if ltb off r.size
    then if mark_at r off == 0 then gap else run_to (run_end (r.size - off) r off)
    else stop

-- The outer loop, on fuel, with the body and `n_segs`.
unfoldable pub put_segs : ℕ → Rom → ℕ → Buf × ℕ → Buf × ℕ
put_segs zero r off s = s
put_segs (suc fuel) r off s = elim (scan r off) [
  | stop ↦ s
  | gap ↦ put_segs fuel r (off + 1) s
  | run_to end ↦ put_segs fuel r end (put_seg r off end s.0, s.1 + 1)
]

-- The whole container. Each round of the outer loop moves on by one byte at least.
unfoldable pub put_rom : Rom → Buf → Buf × ℕ
put_rom r body =
    let opened = ck_open body rom_id in
    let filled = put_segs (suc r.size) r 0 (opened.0, 0) in (ck_close filled.0 opened.1, filled.1)
