-- ===== src/Romgen/Segments/Written.antt =====
-- The bytes of the ROM container that tools/romgen.c writes.
use sdcc.Common.{
  ℕ, zero, suc, ◌+◌, ◌<◌, ◌^◌, ◌≡◌, refl, ap, ◌∙◌, List, [], ◌∷◌, ◌++◌, arith, length,
  length-append, append_assoc, append-nil, inl, inr, u32, sym,
}
use sdcc.Romgen.Address.{cart_base}
use sdcc.Romgen.Buffer.{Buf, buf_put, buf_u32, le32}
use sdcc.Romgen.Buffer.Words.{buf_put-bytes, buf_u32-bytes}
use sdcc.Romgen.Chunk.{ck_open}
use sdcc.Romgen.Chunk.Frame.{frame, IsAligned}
use sdcc.Romgen.Chunk.Blob.{ck_open_close-frame, ck_open-bytes, length-frame, frame-IsAligned}
use sdcc.Romgen.Segments.{slice, put_seg, put_segs, scan, put_rom, seg_id, rom_id}
use sdcc.Romgen.Segments.Runs.{Run, runs, Scan-cases}
use sdcc.Romgen.Rom.{Rom}

module _ (r : Rom) where
  abbrev pub seg_payload : Run → List ℕ
  seg_payload run = le32 (u32 (cart_base + run.start)) ++ slice r.img run.start run.end

  abbrev pub frames : List Run → List ℕ
  frames [] = []
  frames (run ∷ rest) = frame seg_id (seg_payload run) ++ frames rest

  put_seg-frame :
      (run : Run) (body : Buf)
      → IsAligned body.bytes
      → length (body.bytes ++ frame seg_id (seg_payload run)) < 2 ^ 32
      → (put_seg r run.start run.end body).bytes ≡ body.bytes ++ frame seg_id (seg_payload run)
  unfolding put_seg
  put_seg-frame run body aligned fits =
      ck_open_close-frame body filled seg_id (seg_payload run) put refl aligned (
        omega (
          arith,
          ap length put,
          ap length (ck_open-bytes body seg_id),
          length-append (ck_open body seg_id).0.bytes (seg_payload run),
          length-append (body.bytes ++ seg_id) (0 ∷ 0 ∷ 0 ∷ 0 ∷ []),
          length-append body.bytes seg_id,
          length-append body.bytes (frame seg_id (seg_payload run)),
          length-frame seg_id (seg_payload run),
        ))
    where
      filled : Buf
      filled =
          buf_put (buf_u32 (ck_open body seg_id).0 (u32 (cart_base + run.start)))
            (slice r.img run.start run.end)

      put : filled.bytes ≡ (ck_open body seg_id).0.bytes ++ seg_payload run
      put =
          buf_put-bytes _ _
          ∙ rw (buf_u32-bytes (ck_open body seg_id).0 (u32 (cart_base + run.start)))
              (append_assoc (ck_open body seg_id).0.bytes (le32 (u32 (cart_base + run.start))) _)

  -- One run in front of what the later rounds write.
  with_run :
      (off end : ℕ) (s : Buf × ℕ) (fuel : ℕ)
      → let seg = frame seg_id (seg_payload (record { start = off; end = end })) in
        let next = put_seg r off end s.0 in
        let later = runs fuel r end in
        IsAligned s.0.bytes
        → length (s.0.bytes ++ (seg ++ frames later)) < 2 ^ 32
        → (IsAligned next.bytes
            → length (next.bytes ++ frames later) < 2 ^ 32
            → ((put_segs fuel r end (next, s.1 + 1)).0.bytes ≡ next.bytes ++ frames later)
              × ((put_segs fuel r end (next, s.1 + 1)).1 ≡ s.1 + 1 + length later))
        → ((put_segs fuel r end (next, s.1 + 1)).0.bytes ≡ s.0.bytes ++ (seg ++ frames later))
          × ((put_segs fuel r end (next, s.1 + 1)).1 ≡ s.1 + suc (length later))
  with_run off end s fuel aligned fits ih =
      let whole =
        ih (rw written (frame-IsAligned s.0.bytes seg_id (seg_payload here) refl aligned)) (
          rw (written, append_assoc s.0.bytes (frame seg_id (seg_payload here)) (frames later))
            fits) in
      (
        whole.0
            ∙ rw written (append_assoc s.0.bytes (frame seg_id (seg_payload here)) (frames later)),
        whole.1 ∙ omega arith,
      )
    where
      here : Run
      here = record { start = off; end = end }

      later : List Run
      later = runs fuel r end

      written : (put_seg r off end s.0).bytes ≡ s.0.bytes ++ frame seg_id (seg_payload here)
      written = put_seg-frame here s.0 aligned (
          omega (
            arith,
            length-append s.0.bytes (frame seg_id (seg_payload here)),
            length-append s.0.bytes (frame seg_id (seg_payload here) ++ frames later),
            length-append (frame seg_id (seg_payload here)) (frames later),
          ))

  pub put_segs-runs :
      (fuel off : ℕ) (s : Buf × ℕ)
      → IsAligned s.0.bytes
      → length (s.0.bytes ++ frames (runs fuel r off)) < 2 ^ 32
      → ((put_segs fuel r off s).0.bytes ≡ s.0.bytes ++ frames (runs fuel r off))
        × ((put_segs fuel r off s).1 ≡ s.1 + length (runs fuel r off))
  unfolding put_segs runs
  put_segs-runs zero off s aligned fits = (sym (append-nil s.0.bytes), omega arith)
  put_segs-runs (suc fuel) off s aligned fits = elim (Scan-cases (scan r off)) [
    | inl over ↦ rw (over, put_segs, runs) (sym (append-nil s.0.bytes), omega arith)
    | inr (inl blank) ↦
        rw (blank, put_segs, runs)
          (put_segs-runs fuel (off + 1) s aligned (rw (blank, runs) at fits))
    | inr (inr (end, found)) ↦
        rw (found, put_segs, runs)
          (with_run off end s fuel aligned (rw (found, runs) at fits)
            (put_segs-runs fuel end (put_seg r off end s.0, s.1 + 1)))
  ]

  -- On an aligned body, and below 4 GB, the whole container is one framed chunk behind the body,
  -- which holds a framed chunk for each run, and the count is the number of runs.
  pub put_rom-frame :
      (body : Buf)
      → IsAligned body.bytes
      → length (body.bytes ++ frame rom_id (frames (runs (suc r.size) r 0))) < 2 ^ 32
      → ((put_rom r body).0.bytes ≡ body.bytes ++ frame rom_id (frames (runs (suc r.size) r 0)))
        × ((put_rom r body).1 ≡ length (runs (suc r.size) r 0))
  unfolding put_rom
  put_rom-frame body aligned fits = (
    ck_open_close-frame body filled.0 rom_id content put.0 refl aligned (
        omega (
          arith,
          ap length put.0,
          open_length,
          length-append (ck_open body rom_id).0.bytes content,
          total,
        )),
    put.1 ∙ omega arith,
  )
    where
      content : List ℕ
      content = frames (runs (suc r.size) r 0)

      filled : Buf × ℕ
      filled = put_segs (suc r.size) r 0 ((ck_open body rom_id).0, 0)

      open_length : length (ck_open body rom_id).0.bytes ≡ length body.bytes + 8
      open_length = omega (
        arith,
        ap length (ck_open-bytes body rom_id),
        length-append (body.bytes ++ rom_id) (0 ∷ 0 ∷ 0 ∷ 0 ∷ []),
        length-append body.bytes rom_id,
      )

      total : length body.bytes + 8 + length content < 2 ^ 32
      total =
          omega
            (arith, length-append body.bytes (frame rom_id content), length-frame rom_id content)

      put :
          (filled.0.bytes ≡ (ck_open body rom_id).0.bytes ++ content)
          × (filled.1 ≡ 0 + length (runs (suc r.size) r 0))
      put =
          put_segs-runs (suc r.size) 0 ((ck_open body rom_id).0, 0) (omega (arith, open_length))
            (omega (arith, open_length, length-append (ck_open body rom_id).0.bytes content, total))
