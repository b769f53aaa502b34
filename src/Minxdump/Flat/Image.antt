-- ===== src/Minxdump/Flat/Image.antt =====
-- The image that tools/minxdump.c puts together from the runs.
use sdcc.Common.{
  ℕ, zero, suc, ◌+◌, ◌-◌, ◌≤◌, ◌<◌, ◌≡◌, refl, ap, ◌∙◌, ◌&&◌, List, [], ◌∷◌, arith, leb, length,
  ltb, if◌then◌else◌, get_or, inl, inr,
}
use sdcc.Romgen.Rom.{Rom}
use sdcc.Romgen.Rom.Store.{IsValid}
use sdcc.Romgen.Segments.{slice, scan, stop, gap, run_to}
use sdcc.Romgen.Segments.Runs.{Run, runs, scan-Scanned, Scanned, Scan-cases}
use sdcc.Minxdump.Flat.{copy_at}
use sdcc.Minxdump.Flat.Chunks.{AllRuns, fold_runs}

abbrev pub grow_step : Run → ℕ → ℕ
grow_step x m = if ltb m x.end then x.end else m

abbrev pub copy_step : Rom → ℕ → Run → List ℕ → List ℕ
copy_step r m x flat =
    if leb x.end m then copy_at flat x.start (slice r.img x.start x.end) else flat

pub runs-AllRuns : (fuel : ℕ) (r : Rom) (off : ℕ) → AllRuns r (runs fuel r off)
unfolding runs
runs-AllRuns zero r off = tt
runs-AllRuns (suc fuel) r off = elim (Scan-cases (scan r off)) [
  | inl over ↦ rw (over, runs) tt
  | inr (inl blank) ↦ rw (blank, runs) (runs-AllRuns fuel r (off + 1))
  | inr (inr (end, found)) ↦
      let s : Scanned r off (run_to end) = rw found at (scan-Scanned r off) in
      rw (found, runs) (record { nonempty = s.0; inside = s.1 }, runs-AllRuns fuel r end)
]

-- The largest end of a run is the size of the image, whose last byte is defined.
pub grow_runs :
    (fuel : ℕ) (r : Rom) (off m : ℕ)
    → IsValid r
    → m ≤ r.size
    → r.size < off + fuel
    → fold_runs grow_step (runs fuel r off) m ≡ (if ltb off r.size then r.size else m)
unfolding runs
grow_runs zero r off m v h enough = ground arith
grow_runs (suc fuel) r off m v h enough = elim (Scan-cases (scan r off)) [
  | inl over ↦
      let s : Scanned r off stop = rw over at (scan-Scanned r off) in rw (over, runs) (ground arith)
  | inr (inl blank) ↦
      let s : Scanned r off gap = rw blank at (scan-Scanned r off) in
      rw (blank, runs)
        (grow_runs fuel r (off + 1) m v h (omega arith) ∙ ground (arith, v.tight off))
  | inr (inr (end, found)) ↦
      let s : Scanned r off (run_to end) = rw found at (scan-Scanned r off) in
      rw (found, runs)
        (grow_runs fuel r end (grow_step (record { start = off; end = end }) m) v (ground arith)
            (omega arith)
          ∙ ground arith)
]

pub get_or-copy_at :
    (xs : List ℕ) (p : ℕ) (src : List ℕ) (i d : ℕ)
    → p + length src ≤ length xs
    → get_or (copy_at xs p src) i d
      ≡ (if leb p i && ltb i (p + length src) then get_or src (i - p) d else get_or xs i d)
unfolding copy_at
get_or-copy_at [] p src i d h = ground arith
get_or-copy_at (x ∷ xs) zero [] i d h = ground arith
get_or-copy_at (x ∷ xs) zero (w ∷ ws) zero d h = ground arith
get_or-copy_at (x ∷ xs) zero (w ∷ ws) (suc i) d h = ground (arith, get_or-copy_at xs zero ws i d)
get_or-copy_at (x ∷ xs) (suc p) src zero d h = ground arith
get_or-copy_at (x ∷ xs) (suc p) src (suc i) d h = ground (arith, get_or-copy_at xs p src i d)

pub length-copy_at : (xs : List ℕ) (p : ℕ) (src : List ℕ) → length (copy_at xs p src) ≡ length xs
unfolding copy_at
length-copy_at [] p src = refl
length-copy_at (x ∷ xs) zero [] = refl
length-copy_at (x ∷ xs) zero (w ∷ ws) = ap suc (length-copy_at xs zero ws)
length-copy_at (x ∷ xs) (suc p) src = ap suc (length-copy_at xs p src)
