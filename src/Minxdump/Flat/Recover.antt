-- ===== src/Minxdump/Flat/Recover.antt =====
-- From the image of tools/romgen.c through the container to the image of tools/minxdump.c.
use sdcc.Common.{
  ℕ, suc, ◌+◌, ◌-◌, ◌^◌, ◌<◌, ◌≡◌, refl, ap, subst, ◌∙◌, List, ◌++◌, some, arith, length,
  length-append, append_assoc, take, replicate,
}
use sdcc.Romgen.Rom.{Rom}
use sdcc.Romgen.Rom.Store.{IsValid}
use sdcc.Romgen.Buffer.{no_buf, le32}
use sdcc.Romgen.Chunk.Frame.{frame, padding, IsAligned}
use sdcc.Romgen.Chunk.Blob.{length-frame}
use sdcc.Romgen.Segments.{put_rom}
use sdcc.Romgen.Segments.Size.{length-frames}
use sdcc.Romgen.Segments.Runs.{Run, runs}
use sdcc.Romgen.Segments.Written.{frames, put_rom-frame}
use sdcc.Minxdump.Reader.{File, Chunk, same_id, next_chunk, found, find_chunk, hit}
use sdcc.Minxdump.RoundTrip.{next_chunk-frame}
use sdcc.Minxdump.Flat.{
  walked, cart_base, rom_id, each_chunk, grow_end, copy_seg, fill, flat_rom, recovered, recover,
}
use sdcc.Minxdump.Flat.Chunks.{each_chunk-runs}
use sdcc.Minxdump.Flat.Seg.{Fits, grow_end-run, copy_seg-run}
use sdcc.Minxdump.Flat.Image.{grow_step, copy_step, runs-AllRuns, grow_runs}
use sdcc.Minxdump.Flat.Same.{copy_all}

module _ (r : Rom) (v : IsValid r) (space : cart_base + r.size < 2 ^ 32) where
  abbrev all_runs : List Run
  all_runs = runs (suc r.size) r 0

  fits : Fits r
  fits = record { block = omega (arith, v.img_cap, v.size_cap); space = space }

  -- Both walks over the SEG chunks of a ROM chunk.
  pub flat_rom-runs :
      (file : File) (pre rest : List ℕ) (end : ℕ)
      → file ≡ pre ++ (frames r all_runs ++ rest)
      → IsAligned pre
      → end ≡ length pre + length (frames r all_runs)
      → end < 2 ^ 32 - 4
      → flat_rom file (length pre) end ≡ walked (take r.size r.img)
  unfolding flat_rom fill
  flat_rom-runs file pre rest end e aligned e' small = rw (grown, filled) refl
    where
      enough : length all_runs < suc end
      enough = omega (arith, length-frames r all_runs)

      grown : each_chunk (suc end) file (length pre) end (grow_end file) 0 ≡ walked r.size
      grown =
          each_chunk-runs r file (grow_end file) grow_step
            (λ x p q m ok at. grow_end-run r fits x ok p q file at m) all_runs pre rest (suc end)
            end 0 (runs-AllRuns (suc r.size) r 0) e aligned e' small enough
          ∙ ap walked (grow_runs (suc r.size) r 0 0 v (omega arith) (omega arith) ∙ ground arith)

      filled :
          each_chunk (suc end) file (length pre) end (copy_seg r.size file) (replicate r.size 0xFF)
          ≡ walked (take r.size r.img)
      filled =
          each_chunk-runs r file (copy_seg r.size file) (copy_step r r.size)
            (λ x p q s ok at. copy_seg-run r fits x ok p q file at r.size s) all_runs pre rest
            (suc end) end (replicate r.size 0xFF) (runs-AllRuns (suc r.size) r 0) e aligned e' small
            enough
          ∙ ap walked (copy_all r v)

  module _ (header rest : List ℕ) (sixteen : length header ≡ 16)
      (small : length (frames r all_runs) + length rest + 64 < 2 ^ 32) where
    abbrev content : List ℕ
    content = frames r all_runs

    -- A file whose body begins with the ROM chunk.
    abbrev pub container : File
    container = header ++ ((put_rom r no_buf).0.bytes ++ rest)

    container-eq : container ≡ header ++ (frame rom_id content ++ rest)
    container-eq =
        ap (λ xs. header ++ (xs ++ rest))
          (put_rom-frame r no_buf refl (omega (arith, length-frame rom_id content))).0

    length-container : length container ≡ 16 + (length (frame rom_id content) + length rest)
    length-container =
        ap length container-eq
        ∙ omega (
          arith,
          length-append header (frame rom_id content ++ rest),
          length-append (frame rom_id content) rest,
        )

    abbrev rom_chunk : Chunk
    rom_chunk = record { id = rom_id; payload = 24; size = length content }

    find_rom :
        find_chunk (suc (length container)) container 16 (length container) rom_id ≡ hit rom_chunk
    unfolding find_chunk same_id
    find_rom = rw (first, find_chunk)
      where
        first :
            next_chunk container 16 (length container)
            ≡ found rom_chunk (16 + length (frame rom_id content))
        first =
            ap (λ f. next_chunk f 16 (length container)) container-eq
            ∙ subst
                (λ k.
                  next_chunk (header ++ (frame rom_id content ++ rest)) k (length container)
                  ≡ found (record { id = rom_id; payload = k + 8; size = length content })
                      (k + length (frame rom_id content)))
                sixteen
                (next_chunk-frame header rom_id content rest refl (length container) (omega arith)
                  (omega (arith, length-container, length-frame rom_id content))
                  (omega (arith, length-container, length-frame rom_id content)))

    -- For a valid image whose SEG chunks and the bytes behind the ROM chunk stay 64 bytes below 4 GB, and a file whose header of 16 bytes is
    -- followed by the ROM chunk that `romgen` writes, `minxdump` puts together the very bytes of the
    -- flat file, with no failure and without running out of fuel.
    pub recover-put_rom :
        recover container 16 (length container) ≡ some (walked (take r.size r.img))
    unfolding recover recovered
    recover-put_rom = rw find_rom (
        ap some (
          subst (λ k. flat_rom container k (24 + length content) ≡ walked (take r.size r.img))
            length-before
            (flat_rom-runs container before behind (24 + length content) cut aligned
              (omega (arith, length-before)) (omega arith))))
      where
        before : List ℕ
        before = header ++ (rom_id ++ le32 (length content))

        behind : List ℕ
        behind = padding (length content) ++ rest

        cut : container ≡ before ++ (content ++ behind)
        cut = container-eq ∙ simp append_assoc

        length-before : length before ≡ 24
        length-before = omega (arith, length-append header (rom_id ++ le32 (length content)))

        aligned : IsAligned before
        aligned = omega (arith, length-before)
