-- ===== src/Minxdump/Flat/Chunks.antt =====
-- A walk over the SEG chunks of a container that tools/romgen.c wrote.
use sdcc.Common.{
  ℕ, zero, suc, ◌+◌, ◌-◌, ◌^◌, ◌≤◌, ◌<◌, ◌≡◌, refl, ap, ◌∙◌, List, [], ◌∷◌, ◌++◌, arith, length,
  length-append, append_assoc, sym,
}
use sdcc.Romgen.Rom.{Rom}
use sdcc.Romgen.Chunk.Frame.{frame, IsAligned}
use sdcc.Romgen.Chunk.Blob.{length-frame, frame-IsAligned}
use sdcc.Romgen.Segments.Runs.{Run}
use sdcc.Romgen.Segments.Written.{seg_payload, frames}
use sdcc.Minxdump.Reader.{File, Chunk, next_chunk, at_end, found}
use sdcc.Minxdump.RoundTrip.{next_chunk-frame}
use sdcc.Minxdump.Flat.{seg_id, walked, each_chunk}

pub record IsRun (r : Rom) (x : Run) : Type 0 where
  pub nonempty : x.start < x.end
  pub inside : x.end ≤ r.size

abbrev pub AllRuns : Rom → List Run → Type 0
AllRuns r [] = Unit
AllRuns r (x ∷ xs) = IsRun r x × AllRuns r xs

abbrev pub fold_runs {ℓ} : {S : Type ℓ} → (Run → S → S) → List Run → S → S
fold_runs step [] s = s
fold_runs step (x ∷ xs) s = fold_runs step xs (step x s)

-- The record that the reader makes of a run's chunk behind `pre`.
abbrev pub chunk_of : Rom → List ℕ → Run → Chunk
chunk_of r pre x = record { id = seg_id; payload = length pre + 8; size = length (seg_payload r x) }

next_chunk-end : (file : File) (pos : ℕ) → next_chunk file pos pos ≡ at_end
unfolding next_chunk
next_chunk-end file pos = ground arith

module _ {ℓ} {S : Type ℓ} (r : Rom) (file : File) (body : Chunk → S → S) (step : Run → S → S)
    (meaning : (x : Run) (pre rest : List ℕ) (s : S)
      → IsRun r x
      → file ≡ pre ++ (frame seg_id (seg_payload r x) ++ rest)
      → body (chunk_of r pre x) s ≡ step x s) where
  walk_end : (fuel pos : ℕ) (s : S) → each_chunk (suc fuel) file pos pos body s ≡ walked s
  unfolding each_chunk
  walk_end fuel pos s = rw (next_chunk-end file pos, each_chunk)

  -- One round for each run, and one for the end.
  pub each_chunk-runs :
      (xs : List Run) (pre rest : List ℕ) (fuel end : ℕ) (s : S)
      → AllRuns r xs
      → file ≡ pre ++ (frames r xs ++ rest)
      → IsAligned pre
      → end ≡ length pre + length (frames r xs)
      → end < 2 ^ 32 - 4
      → length xs < fuel
      → each_chunk fuel file (length pre) end body s ≡ walked (fold_runs step xs s)
  unfolding each_chunk
  each_chunk-runs xs pre rest zero end s all e aligned e' fits enough = absurd (omega arith)
  each_chunk-runs [] pre rest (suc fuel) end s all e aligned e' fits enough =
      let same : end ≡ length pre = omega arith in rw same (walk_end fuel (length pre) s)
  each_chunk-runs (x ∷ xs) pre rest (suc fuel) end s all e aligned e' fits enough =
      rw
        (
          reads,
          each_chunk,
          meaning x pre (frames r xs ++ rest) s all.0 regrouped,
          ← length-append pre first,
        )
        (each_chunk-runs xs (pre ++ first) rest fuel end (step x s) all.1
          (regrouped ∙ sym (append_assoc pre first (frames r xs ++ rest)))
          (frame-IsAligned pre seg_id (seg_payload r x) refl aligned)
          (omega (arith, length-append pre first, length-append first (frames r xs))) fits
          (omega arith))
    where
      first : List ℕ
      first = frame seg_id (seg_payload r x)

      regrouped : file ≡ pre ++ (first ++ (frames r xs ++ rest))
      regrouped = e ∙ ap (λ ys. pre ++ ys) (append_assoc first (frames r xs) rest)

      reads :
          next_chunk file (length pre) end ≡ found (chunk_of r pre x) (length pre + length first)
      reads =
          ap (λ f. next_chunk f (length pre) end) regrouped
          ∙ next_chunk-frame pre seg_id (seg_payload r x) (frames r xs ++ rest) refl end aligned
              (omega
                (arith, length-append first (frames r xs), length-frame seg_id (seg_payload r x)))
              fits
