-- ===== src/Romgen/Segments/Runs.antt =====
-- The runs of defined bytes: where they begin and end.
use sdcc.Common.{
  ℕ, zero, suc, ◌+◌, ◌-◌, ◌≤◌, ◌<◌, ◌≡◌, ◌≢◌, ◌⊎◌, refl, List, [], ◌∷◌, ltb, ◌==◌, arith,
  Bool-cases, inl, inr,
}
use sdcc.Romgen.Segments.{run_end, Scan, stop, gap, run_to, scan}
use sdcc.Romgen.Rom.{Rom}
use sdcc.Romgen.Rom.Store.{mark_at}

pub record Run : Type 0 where
  pub start : ℕ
  pub end : ℕ

-- The runs that the outer loop of tools/romgen.c meets from `off` on.
unfoldable pub runs : ℕ → Rom → ℕ → List Run
runs zero r off = []
runs (suc fuel) r off = elim (scan r off) [
  | stop ↦ []
  | gap ↦ runs fuel r (off + 1)
  | run_to end ↦ record { start = off; end = end } ∷ runs fuel r end
]

pub run_end-ge : (fuel : ℕ) (r : Rom) (off : ℕ) → off ≤ run_end fuel r off
unfolding run_end
run_end-ge zero r off = omega arith
run_end-ge (suc fuel) r off = ground (arith, run_end-ge fuel r (off + 1))

pub run_end-le : (fuel : ℕ) (r : Rom) (off : ℕ) → off ≤ r.size → run_end fuel r off ≤ r.size
unfolding run_end
run_end-le zero r off h = h
run_end-le (suc fuel) r off h = ground (arith, run_end-le fuel r (off + 1))

-- Every byte of a run is defined.
pub run_end_marked :
    (fuel : ℕ) (r : Rom) (off i : ℕ) → off ≤ i → i < run_end fuel r off → mark_at r i ≢ 0
unfolding run_end
run_end_marked zero r off i lo hi e = omega arith
run_end_marked (suc fuel) r off i lo hi e = elim (Bool-cases (off == i)) [
  | inl same ↦ ground arith
  | inr other ↦ ground (arith, run_end_marked fuel r (off + 1) i)
]

-- With a round for each byte that is left, a run ends only at the end or at a gap.
pub run_end_maximal :
    (fuel : ℕ) (r : Rom) (off : ℕ)
    → r.size ≤ off + fuel
    → run_end fuel r off < r.size
    → mark_at r (run_end fuel r off) ≡ 0
unfolding run_end
run_end_maximal zero r off h lt = absurd (omega arith)
run_end_maximal (suc fuel) r off h lt = ground (arith, run_end_maximal fuel r (off + 1))

-- The loop moves on behind a defined byte.
pub run_end-gt :
    (r : Rom) (off : ℕ) → off < r.size → mark_at r off ≢ 0 → off < run_end (r.size - off) r off
run_end-gt r off h m =
    let e : r.size - off ≡ suc (r.size - off - 1) = omega arith in
    rw e (unfold run_end in ground (arith, run_end-ge (r.size - off - 1) r (off + 1)))

-- What each outcome of a round says.
abbrev pub Scanned : Rom → ℕ → Scan → Type 0
Scanned r off stop = r.size ≤ off
Scanned r off gap = (off < r.size) × (mark_at r off ≡ 0)
Scanned r off (run_to end) =
    (off < end)
    × (end ≤ r.size)
    × ((i : ℕ) → off ≤ i → i < end → mark_at r i ≢ 0)
    × (end < r.size → mark_at r end ≡ 0)

-- Each round of the segment loop ends at the end of the image, skips one byte that is not
-- defined, or finds a run that is not empty, stays inside the image, holds defined bytes only, and
-- ends at a gap or at the end.
pub scan-Scanned : (r : Rom) (off : ℕ) → Scanned r off (scan r off)
unfolding scan
scan-Scanned r off = elim (Bool-cases (ltb off r.size)) [
  | inr over ↦ rw over (ground arith)
  | inl inside ↦ elim (Bool-cases (mark_at r off == 0)) [
    | inl blank ↦ rw (inside, blank) (ground arith, ground arith)
    | inr marked ↦
        rw (inside, marked)
          (
            run_end-gt r off (ground arith) (λ e. ground arith),
            run_end-le (r.size - off) r off (ground arith),
            run_end_marked (r.size - off) r off,
            run_end_maximal (r.size - off) r off (omega arith),
          )
  ]
]

-- To split on a round's outcome and keep the equation.
pub Scan-cases : (c : Scan) → (c ≡ stop) ⊎ (c ≡ gap) ⊎ ((end : ℕ) × (c ≡ run_to end))
Scan-cases stop = inl refl
Scan-cases gap = inr (inl refl)
Scan-cases (run_to end) = inr (inr (end, refl))
