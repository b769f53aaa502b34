-- ===== src/Romgen/Segments/Size.antt =====
-- How large the chunks of the runs are.
use sdcc.Common.{
  ℕ, ◌-◌, ◌≤◌, ◌≡◌, List, [], ◌∷◌, arith, length, length-append, drop, length-take, length-drop,
}
use sdcc.Romgen.Rom.{Rom}
use sdcc.Romgen.Chunk.Frame.{frame}
use sdcc.Romgen.Chunk.Blob.{length-frame}
use sdcc.Romgen.Segments.{slice, seg_id}
use sdcc.Romgen.Segments.Runs.{Run}
use sdcc.Romgen.Segments.Written.{seg_payload, frames}

pub length-slice : (xs : List ℕ) (a b : ℕ) → a ≤ b → b ≤ length xs → length (slice xs a b) ≡ b - a
length-slice xs a b h k = omega (arith, length-take (b - a) (drop a xs), length-drop a xs)

-- A chunk takes twelve bytes at least.
pub length-frames : (r : Rom) (xs : List Run) → length xs ≤ length (frames r xs)
length-frames r [] = omega arith
length-frames r (x ∷ xs) = omega (
  arith,
  length-frames r xs,
  length-append (frame seg_id (seg_payload r x)) (frames r xs),
  length-frame seg_id (seg_payload r x),
)
