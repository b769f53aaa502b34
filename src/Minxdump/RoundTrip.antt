-- ===== src/Minxdump/RoundTrip.antt =====
-- The reader of tools/minxdump.c gives back the chunks that tools/romgen.c writes.
use sdcc.Common.{
  ℕ, ◌+◌, ◌-◌, ◌*◌, ◌/◌, ◌%◌, ◌^◌, ◌≤◌, ◌<◌, ◌≡◌, List, [], ◌∷◌, ◌++◌, arith, length, length-append,
  get_or-append, take, drop, take-append, drop-append, bit_or, shl, u32, ap, ap₂, ◌∙◌,
  bit_or_low_high, append_assoc,
}
use sdcc.Romgen.Buffer.{le32}
use sdcc.Romgen.Chunk.Frame.{frame, padding, IsAligned}
use sdcc.Romgen.Chunk.Blob.{length-frame}
use sdcc.Minxdump.Reader.{File, rle16, rle32, found, next_chunk}

-- Two bytes read as a word, and two words as a long one.
rle16-le :
    (pre rest : List ℕ) (p a b : ℕ)
    → a < 256
    → b < 256
    → p ≡ length pre
    → rle16 (pre ++ (a ∷ b ∷ rest)) p ≡ a + b * 256
unfolding rle16
rle16-le pre rest p a b ha hb e =
    rw
      (
        get_or-append pre (a ∷ b ∷ rest) p 0 0 (omega arith),
        get_or-append pre (a ∷ b ∷ rest) (p + 1) 1 0 (omega arith),
      )
      (bit_or_low_high 8 a b ha)

-- The bytes of a word, as the reader joins them.
joined :
    (v : ℕ)
    → v < 2 ^ 32
    → bit_or
        (v % 256 + v / 256 % 256 * 256)
        (u32 (shl (v / 65536 % 256 + v / 16777216 % 256 * 256) 16))
      ≡ v
joined v h = rw (in_range v h) (
    bit_or_low_high 16 (v % 256 + v / 256 % 256 * 256) (v / 65536 % 256 + v / 16777216 % 256 * 256)
      (omega arith)
    ∙ omega arith)
  where
    in_range :
        (v : ℕ)
        → v < 2 ^ 32
        → u32 (shl (v / 65536 % 256 + v / 16777216 % 256 * 256) 16)
          ≡ (v / 65536 % 256 + v / 16777216 % 256 * 256) * 2 ^ 16
    in_range v h = omega arith

-- What `wle32` writes, `rle32` reads.
pub rle32-le32 :
    (pre rest : List ℕ) (p v : ℕ)
    → v < 2 ^ 32
    → p ≡ length pre
    → rle32 (pre ++ (le32 v ++ rest)) p ≡ v
unfolding rle32
rle32-le32 pre rest p v h e = ap₂ (λ lo hi. bit_or lo (u32 (shl hi 16))) low high ∙ joined v h
  where
    low : rle16 (pre ++ (le32 v ++ rest)) p ≡ v % 256 + v / 256 % 256 * 256
    low = rle16-le pre _ p (v % 256) (v / 256 % 256) (omega arith) (omega arith) e

    high : rle16 (pre ++ (le32 v ++ rest)) (p + 2) ≡ v / 65536 % 256 + v / 16777216 % 256 * 256
    high =
        rw
          (← append_assoc pre (v % 256 ∷ v / 256 % 256 ∷ [])
            (v / 65536 % 256 ∷ v / 16777216 % 256 ∷ rest))
          (rle16-le (pre ++ (v % 256 ∷ v / 256 % 256 ∷ [])) rest (p + 2) (v / 65536 % 256)
            (v / 16777216 % 256) (omega arith) (omega arith)
            (omega (arith, length-append pre (v % 256 ∷ v / 256 % 256 ∷ []))))

module _ (pre id payload rest : List ℕ) (four : length id ≡ 4) where
  -- A file that holds a chunk behind `pre`.
  abbrev holding : File
  holding = pre ++ (frame id payload ++ rest)

  size_read : length payload < 2 ^ 32 → rle32 holding (length pre + 4) ≡ length payload
  size_read fits =
      ap (λ f. rle32 f (length pre + 4)) regrouped
      ∙ rle32-le32 (pre ++ id) (payload ++ padding (length payload) ++ rest) (length pre + 4)
          (length payload) fits (omega (arith, length-append pre id))
    where
      regrouped :
          holding
          ≡ (pre ++ id) ++ (le32 (length payload) ++ (payload ++ padding (length payload) ++ rest))
      regrouped = simp append_assoc

  id_read : take 4 (drop (length pre) holding) ≡ id
  id_read =
      rw
        (
          drop-append pre (frame id payload ++ rest) (length pre) 0 (omega arith),
          append_assoc id _ rest,
        )
        (take-append id _ 4 (omega arith))

  -- At the start of an aligned chunk that a container below 4 GB holds whole, the reader returns its id, the place and the
  -- size of its payload, and the position behind its padding.
  pub next_chunk-frame :
      (end : ℕ)
      → IsAligned pre
      → length pre + 8 + length payload ≤ end
      → end < 2 ^ 32 - 4
      → next_chunk holding (length pre) end
        ≡ found
            (record { id = id; payload = length pre + 8; size = length payload })
            (length pre + length (frame id payload))
  unfolding next_chunk
  next_chunk-frame end aligned inside fits =
      ground (arith, size_read (omega arith), id_read, length-frame id payload)
