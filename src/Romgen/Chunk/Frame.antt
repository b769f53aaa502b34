-- ===== src/Romgen/Chunk/Frame.antt =====
-- What a closed chunk looks like: id, size, payload and padding to a multiple of four.
use sdcc.Common.{
  ℕ, zero, suc, ◌+◌, ◌-◌, ◌%◌, ◌^◌, ◌<◌, ◌≡◌, refl, List, [], ◌∷◌, ◌++◌, arith, ◌==◌, if◌then◌else◌,
  length, length-append, replicate, take, u32, ap, ◌∙◌, append_assoc, append-nil,
}
use sdcc.Romgen.Buffer.{Buf, buf_put, wle32, le32}
use sdcc.Romgen.Buffer.Words.{wle32-append, wle32_over}
use sdcc.Romgen.Chunk.{ck_pad, ck_close}

-- The zero bytes behind `n` bytes.
abbrev pub padding : ℕ → List ℕ
padding n = replicate ((4 - n % 4) % 4) 0

abbrev pub frame : List ℕ → List ℕ → List ℕ
frame id payload = id ++ (le32 (length payload) ++ (payload ++ padding (length payload)))

abbrev pub IsAligned : List ℕ → Type 0
IsAligned xs = length xs % 4 ≡ 0

abbrev three_zeros : List ℕ
three_zeros = 0 ∷ 0 ∷ 0 ∷ []

pad_zeros :
    (r : ℕ) → r < 4 → (if r == 0 then [] else take (4 - r) three_zeros) ≡ replicate ((4 - r) % 4) 0
pad_zeros zero h = refl
pad_zeros (suc zero) h = refl
pad_zeros (suc (suc zero)) h = refl
pad_zeros (suc (suc (suc zero))) h = refl
pad_zeros (suc (suc (suc (suc r)))) h = absurd (omega arith)

pub ck_pad-bytes : (b : Buf) → (ck_pad b).bytes ≡ b.bytes ++ padding (length b.bytes)
ck_pad-bytes b =
    pad_branch b ∙ ap (λ xs. b.bytes ++ xs) (pad_zeros (length b.bytes % 4) (omega arith))
  where
    pad_branch :
        (b : Buf)
        → (ck_pad b).bytes
          ≡ b.bytes
            ++ (if length b.bytes % 4 == 0 then [] else take (4 - length b.bytes % 4) three_zeros)
    pad_branch b = unfold ck_pad buf_put in ground (arith, append-nil b.bytes)

module _ (pre id payload : List ℕ) where
  -- The bytes between `ck_open` and `ck_close`.
  abbrev pub opened : List ℕ
  opened = (pre ++ id) ++ (0 ∷ 0 ∷ 0 ∷ 0 ∷ payload)

  length-opened : length opened ≡ length (pre ++ id) + 4 + length payload
  length-opened = length-append (pre ++ id) (0 ∷ 0 ∷ 0 ∷ 0 ∷ payload) ∙ omega arith

  size_field :
      length opened < 2 ^ 32 → u32 (length opened - (length (pre ++ id) + 4)) ≡ length payload
  size_field fits = omega (arith, length-opened)

  -- The buffer behind the patch of the size field.
  patched :
      length opened < 2 ^ 32
      → wle32 opened (length (pre ++ id)) (u32 (length opened - (length (pre ++ id) + 4)))
        ≡ (pre ++ id) ++ (le32 (length payload) ++ payload)
  patched fits =
      rw
        (
          size_field fits,
          wle32-append (pre ++ id) (0 ∷ 0 ∷ 0 ∷ 0 ∷ payload) (length (pre ++ id)) (length payload)
              refl,
          wle32_over (length payload) 0 0 0 0 payload,
        )
        refl

  patched_residue :
      length id ≡ 4
      → IsAligned pre
      → length ((pre ++ id) ++ (le32 (length payload) ++ payload)) % 4 ≡ length payload % 4
  patched_residue four aligned =
      omega
        (arith, length-append (pre ++ id) (le32 (length payload) ++ payload), length-append pre id)

  -- Closing a chunk that began at a multiple of four writes the size of what was put since, and
  -- pads the payload.
  pub ck_close-frame :
      (b : Buf)
      → b.bytes ≡ opened
      → length id ≡ 4
      → IsAligned pre
      → length opened < 2 ^ 32
      → (ck_close b (length (pre ++ id))).bytes ≡ pre ++ frame id payload
  unfolding ck_close
  ck_close-frame b e four aligned fits =
      ck_pad-bytes _ ∙ rw (e, patched fits, patched_residue four aligned) (simp append_assoc)
