-- ===== src/Romgen/Header/Layout.antt =====
-- Where the fields of the header stand.
use sdcc.Common.{ℕ, ◌+◌, ◌≡◌, refl, ◌∙◌, ap, List, [], ◌∷◌, ◌++◌, length, u32, crc32_buf}
use sdcc.Romgen.Buffer.{wle32, le32}
use sdcc.Romgen.Buffer.Words.{wle32-append, wle32_over}
use sdcc.Romgen.Header.{minx_id, minx_header, minx_hdrsize}

abbrev pub fixed_part : List ℕ
fixed_part = minx_id ++ (1 ∷ 0 ∷ 0 ∷ 0 ∷ [])

two_words :
    (v w : ℕ)
    → wle32 (wle32 (fixed_part ++ (0 ∷ 0 ∷ 0 ∷ 0 ∷ 0 ∷ 0 ∷ 0 ∷ 0 ∷ [])) 8 v) 12 w
      ≡ fixed_part ++ (le32 v ++ le32 w)
two_words v w =
    rw
      (
        wle32-append fixed_part (0 ∷ 0 ∷ 0 ∷ 0 ∷ 0 ∷ 0 ∷ 0 ∷ 0 ∷ []) 8 v refl,
        wle32_over v 0 0 0 0 (0 ∷ 0 ∷ 0 ∷ 0 ∷ []),
      )
      (wle32-append (fixed_part ++ le32 v) (0 ∷ 0 ∷ 0 ∷ 0 ∷ []) 12 w refl
        ∙ ap (λ xs. (fixed_part ++ le32 v) ++ xs) (wle32_over w 0 0 0 0 [] ∙ refl))

pub minx_header_fields :
    (body : List ℕ)
    → minx_header body
      ≡ fixed_part ++ (le32 (u32 (minx_hdrsize + length body)) ++ le32 (crc32_buf body))
unfolding minx_header
minx_header_fields body = two_words (u32 (minx_hdrsize + length body)) (crc32_buf body)
