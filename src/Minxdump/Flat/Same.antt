-- ===== src/Minxdump/Flat/Same.antt =====
-- The image that tools/minxdump.c puts together is the one that tools/romgen.c cut into runs.
use sdcc.Common.{
  ℕ, zero, suc, ◌+◌, ◌-◌, ◌≤◌, ◌<◌, ◌≡◌, refl, ◌∙◌, Bool, not, ◌&&◌, List, [], ◌∷◌, arith, leb,
  length, ltb, ◌==◌, if◌then◌else◌, take, drop, get_or, length-take, inl, inr, get_or-take,
  get_or-drop, get_or_ext, replicate, get_or-replicate, length-replicate,
}
use sdcc.Romgen.Rom.{Rom}
use sdcc.Romgen.Rom.Store.{IsValid, byte_at, mark_at}
use sdcc.Romgen.Segments.{slice, scan, stop, gap, run_to}
use sdcc.Romgen.Segments.Runs.{Run, runs, scan-Scanned, Scanned, Scan-cases}
use sdcc.Minxdump.Flat.Chunks.{fold_runs}
use sdcc.Romgen.Segments.Size.{length-slice}
use sdcc.Minxdump.Flat.Image.{copy_step, get_or-copy_at, length-copy_at}

module _ (r : Rom) (v : IsValid r) where
  -- Offsets from `off` on that the program defines.
  abbrev filled_from : ℕ → ℕ → Bool
  filled_from off i = leb off i && not (mark_at r i == 0)

  get_or-slice : (a b i : ℕ) → a ≤ i → i < b → get_or (slice r.img a b) (i - a) 0xFF ≡ byte_at r i
  get_or-slice a b i lo hi =
      get_or-take (b - a) (drop a r.img) (i - a) 0xFF
      ∙ ground (arith, get_or-drop a r.img (i - a) 0xFF, add_sub a i)
    where
      add_sub : (a i : ℕ) → a ≤ i → a + (i - a) ≡ i
      add_sub a i h = omega arith

  length-copy_step : (x : Run) (flat : List ℕ) → length (copy_step r r.size x flat) ≡ length flat
  length-copy_step x flat = ground (arith, length-copy_at flat x.start (slice r.img x.start x.end))

  get_or-copy_step :
      (off end i : ℕ) (flat : List ℕ)
      → off < end
      → end ≤ r.size
      → length flat ≡ r.size
      → get_or (copy_step r r.size (record { start = off; end = end }) flat) i 0xFF
        ≡ (if leb off i && ltb i end then byte_at r i else get_or flat i 0xFF)
  get_or-copy_step off end i flat h k e = ground (
    arith,
    get_or-copy_at flat off (slice r.img off end) i 0xFF,
    length-slice r.img off end,
    get_or-slice off end i,
    v.img_cap,
    v.size_cap,
  )

  copy_runs :
      (fuel off : ℕ) (flat : List ℕ) (i : ℕ)
      → length flat ≡ r.size
      → r.size < off + fuel
      → get_or (fold_runs (copy_step r r.size) (runs fuel r off) flat) i 0xFF
        ≡ (if filled_from off i then byte_at r i else get_or flat i 0xFF)
  unfolding runs
  copy_runs zero off flat i e enough = ground (arith, v.inside i)
  copy_runs (suc fuel) off flat i e enough = elim (Scan-cases (scan r off)) [
    | inl over ↦
        let s : Scanned r off stop = rw over at (scan-Scanned r off) in
        rw (over, runs) (ground (arith, v.inside i))
    | inr (inl blank) ↦
        let s : Scanned r off gap = rw blank at (scan-Scanned r off) in
        rw (blank, runs) (copy_runs fuel (off + 1) flat i e (omega arith) ∙ ground arith)
    | inr (inr (end, found)) ↦
        let s : Scanned r off (run_to end) = rw found at (scan-Scanned r off) in
        rw (found, runs)
          (copy_runs fuel end (copy_step r r.size (record { start = off; end = end }) flat) i
              (length-copy_step (record { start = off; end = end }) flat ∙ e) (omega arith)
            ∙ ground (arith, get_or-copy_step off end i flat, s.2 i))
  ]

  length-copy_runs :
      (xs : List Run) (flat : List ℕ)
      → length (fold_runs (copy_step r r.size) xs flat) ≡ length flat
  length-copy_runs [] flat = refl
  length-copy_runs (x ∷ xs) flat =
      length-copy_runs xs (copy_step r r.size x flat) ∙ length-copy_step x flat

  pub copy_all :
      fold_runs (copy_step r r.size) (runs (suc r.size) r 0) (replicate r.size 0xFF)
      ≡ take r.size r.img
  copy_all =
      get_or_ext _ _ 0xFF
        (length-copy_runs (runs (suc r.size) r 0) (replicate r.size 0xFF)
          ∙ length-replicate r.size 0xFF
          ∙ omega (arith, length-take r.size r.img, v.img_cap, v.size_cap))
        (λ i.
          copy_runs (suc r.size) 0 (replicate r.size 0xFF) i (length-replicate r.size 0xFF)
            (omega arith)
          ∙ ground (
            arith,
            get_or-replicate {A = ℕ} r.size i 0xFF,
            get_or-take r.size r.img i 0xFF,
            v.blank i,
            v.inside i,
          ))
