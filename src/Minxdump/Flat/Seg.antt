-- ===== src/Minxdump/Flat/Seg.antt =====
-- What the two loop bodies of tools/minxdump.c do with the SEG chunk of one run.
use sdcc.Common.{
  ℕ, ◌+◌, ◌-◌, ◌^◌, ◌≤◌, ◌<◌, ◌≡◌, ap, ◌∙◌, true, List, ◌++◌, arith, leb, length, length-append,
  append_assoc, ltb, if◌then◌else◌, u32, sym, take, drop, take-append, drop-append,
}
use sdcc.Romgen.Rom.{Rom}
use sdcc.Romgen.Buffer.{le32}
use sdcc.Romgen.Chunk.Frame.{frame, padding}
use sdcc.Romgen.Segments.{slice}
use sdcc.Romgen.Segments.Size.{length-slice}
use sdcc.Romgen.Segments.Runs.{Run}
use sdcc.Romgen.Segments.Written.{seg_payload}
use sdcc.Minxdump.Reader.{File, rle32, same_id}
use sdcc.Minxdump.RoundTrip.{rle32-le32}
use sdcc.Minxdump.Flat.{cart_base, seg_id, is_seg, end_of, grow_end, copy_at, copy_seg}
use sdcc.Minxdump.Flat.Chunks.{IsRun, chunk_of}

-- The image fits its block, and the cartridge fits 32 bits.
pub record Fits (r : Rom) : Type 0 where
  pub block : r.size ≤ length r.img
  pub space : cart_base + r.size < 2 ^ 32

module _ (r : Rom) (fits : Fits r) (x : Run) (ok : IsRun r x) (pre rest : List ℕ) where
  abbrev data_of : List ℕ
  data_of = slice r.img x.start x.end

  abbrev tail_of : List ℕ
  tail_of = padding (length (seg_payload r x)) ++ rest

  -- The file, cut at the chunk's address.
  abbrev before : List ℕ
  before = pre ++ (seg_id ++ le32 (length (seg_payload r x)))

  module _ (file : File) (e : file ≡ pre ++ (frame seg_id (seg_payload r x) ++ rest)) where
    cut : file ≡ before ++ (le32 (u32 (cart_base + x.start)) ++ (data_of ++ tail_of))
    cut = e ∙ simp append_assoc

    length-before : length before ≡ length pre + 8
    length-before = length-append pre _ ∙ omega arith

    phys_read : rle32 file (length pre + 8) ≡ cart_base + x.start
    phys_read =
        ap (λ f. rle32 f (length pre + 8)) cut
        ∙ rle32-le32 before (data_of ++ tail_of) (length pre + 8) (u32 (cart_base + x.start))
            (omega arith) (sym length-before)
        ∙ omega (arith, fits.space, ok.nonempty, ok.inside)

    size_read : length (seg_payload r x) ≡ 4 + (x.end - x.start)
    size_read = omega (arith, length-slice r.img x.start x.end, fits.block, ok.nonempty, ok.inside)

    data_read : take (length (seg_payload r x) - 4) (drop (length pre + 8 + 4) file) ≡ data_of
    data_read =
        ap (λ f. take (length (seg_payload r x) - 4) (drop (length pre + 8 + 4) f)) cut
        ∙ rw (drop-append before _ (length pre + 8 + 4) 4 (omega (arith, length-before)))
            (take-append data_of tail_of _ (omega arith))

    end_read : end_of file (chunk_of r pre x) ≡ x.end
    end_read = rw phys_read (omega (arith, size_read, fits.space, ok.nonempty, ok.inside))

    is_seg_read : is_seg (chunk_of r pre x) ≡ true
    unfolding same_id
    is_seg_read = ground (arith, size_read)

    pub grow_end-run :
        (m : ℕ) → grow_end file (chunk_of r pre x) m ≡ (if ltb m x.end then x.end else m)
    unfolding grow_end
    grow_end-run m = rw (is_seg_read, end_read, phys_read) (ground arith)

    at_start : cart_base + x.start - cart_base ≡ x.start
    at_start = omega arith

    pub copy_seg-run :
        (m : ℕ) (flat : List ℕ)
        → copy_seg m file (chunk_of r pre x) flat
          ≡ (if leb x.end m then copy_at flat x.start data_of else flat)
    unfolding copy_seg
    copy_seg-run m flat = rw (is_seg_read, end_read, data_read, phys_read, at_start) (ground arith)
