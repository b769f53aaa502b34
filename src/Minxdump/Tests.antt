-- ===== src/Minxdump/Tests.antt =====
-- The theorems on tools/minxdump.c at inputs that meet their hypotheses, and runs of the code.
use sdcc.Common.{ℕ, ◌+◌, ◌*◌, ◌≡◌, refl, List, [], ◌∷◌, ◌++◌, some, arith, length, take, replicate}
use sdcc.Romgen.Buffer.{no_buf, wle32, buf_put, buf_u32, grow_cap}
use sdcc.Romgen.Chunk.{ck_open, ck_close, ck_pad}
use sdcc.Romgen.Chunk.Frame.{frame}
use sdcc.Romgen.Rom.{write}
use sdcc.Romgen.Rom.Sample.{gapped, gapped-IsValid}
use sdcc.Romgen.Segments.{put_rom, put_segs, put_seg, scan, run_end}
use sdcc.Romgen.Header.{minx_file}
use sdcc.Romgen.Lines.{LineRec, line_table, put_lines, drop_same}
use sdcc.Romgen.Lines.Sample.{insertion_sort, insertion_sort-Sorts}
use sdcc.Minxdump.Header.{header_failures}
use sdcc.Minxdump.Header.Accepts.{header_accepted}
use sdcc.Minxdump.Lines.{line_failures}
use sdcc.Minxdump.Lines.Passes.{line_table_passes}
use sdcc.Romgen.Segments.Runs.{runs}
use sdcc.Minxdump.Reader.{rle32, next_chunk, found, find_chunk, same_id}
use sdcc.Minxdump.RoundTrip.{next_chunk-frame}
use sdcc.Minxdump.Flat.{
  walked, recover, rom_id, flat_rom, each_chunk, grow_end, copy_seg, copy_at, fill,
}
use sdcc.Minxdump.Flat.Recover.{recover-put_rom}

next_chunk-frame_example :
    next_chunk ((1 ∷ 2 ∷ 3 ∷ 4 ∷ []) ++ (frame rom_id (7 ∷ 8 ∷ 9 ∷ []) ++ (5 ∷ []))) 4 16
    ≡ found (record { id = rom_id; payload = 12; size = 3 }) 16
next_chunk-frame_example =
    next_chunk-frame (1 ∷ 2 ∷ 3 ∷ 4 ∷ []) rom_id (7 ∷ 8 ∷ 9 ∷ []) (5 ∷ []) refl 16 refl
      (omega arith) (omega arith)

abbrev blank_header : List ℕ
blank_header = replicate 16 0

recover-put_rom_example :
    recover
      (blank_header ++ ((put_rom gapped no_buf).0.bytes ++ (9 ∷ [])))
      16
      (length (blank_header ++ ((put_rom gapped no_buf).0.bytes ++ (9 ∷ []))))
    ≡ some (walked (take gapped.size gapped.img))
unfolding write runs scan run_end
recover-put_rom_example =
    recover-put_rom gapped gapped-IsValid (omega arith) blank_header (9 ∷ []) refl (omega arith)

gapped_image : take gapped.size gapped.img ≡ 1 ∷ 0xFF ∷ 0xFF ∷ 4 ∷ []
unfolding write
gapped_image = refl

-- The two tools, run one after the other.
gapped_recovered :
    recover (blank_header ++ ((put_rom gapped no_buf).0.bytes ++ (9 ∷ []))) 16 56
    ≡ some (walked (1 ∷ 0xFF ∷ 0xFF ∷ 4 ∷ []))
unfolding write put_rom put_segs put_seg scan run_end ck_open ck_close ck_pad buf_put buf_u32
    grow_cap wle32 recover find_chunk next_chunk rle32 same_id flat_rom fill each_chunk grow_end
    copy_seg copy_at
gapped_recovered = refl

header_accepted_example : header_failures (minx_file (1 ∷ 2 ∷ 3 ∷ [])) ≡ some 0
header_accepted_example = header_accepted (1 ∷ 2 ∷ 3 ∷ []) (omega arith)

abbrev line_at : ℕ → ℕ → LineRec
line_at phys line = record { phys = phys; file = 0; line = line; scope = 0 }

abbrev two_lines : List LineRec
two_lines = line_at 0x2105 8 ∷ line_at 0x2100 7 ∷ []

line_table_passes_example :
    line_failures
      (blank_header ++ ((put_lines (line_table insertion_sort two_lines) no_buf).bytes ++ (9 ∷ [])))
      1
      (length blank_header + length no_buf.bytes + 8)
      (16 * length (line_at 0x2100 7 ∷ line_at 0x2105 8 ∷ []))
    ≡ some 0
unfolding line_table drop_same
line_table_passes_example =
    line_table_passes insertion_sort two_lines (line_at 0x2100 7) (line_at 0x2105 8 ∷ []) 1
      blank_header (9 ∷ []) no_buf insertion_sort-Sorts refl
      ((omega arith, omega arith, refl), ((omega arith, omega arith, refl), tt)) refl (omega arith)
