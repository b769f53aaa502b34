-- ===== src/Romgen/Buffer/Words.antt =====
-- What the little-endian writers and the string table leave in the bytes.
use sdcc.Common.{
  ℕ, ◌+◌, ◌/◌, ◌%◌, ◌^◌, ◌<◌, ◌≡◌, refl, List, [], ◌∷◌, ◌++◌, arith, ◌==◌, length, length-append,
  ◌∙◌, set, set-append, ap, Bool-cases, inl, inr, u32, take, drop, take-append, drop-append,
  append_assoc, take-all,
}
use sdcc.Romgen.Buffer.{Buf, wle32, buf_put, buf_u32, le32, strtab_add}

pub buf_put-bytes : (b : Buf) (src : List ℕ) → (buf_put b src).bytes ≡ b.bytes ++ src
unfolding buf_put
buf_put-bytes b src = refl

le32-eq :
    (v : ℕ)
    → ◌≡◌ {A = List ℕ}
        (v % 2 ^ 16 % 2 ^ 8
          ∷ v % 2 ^ 16 / 2 ^ 8 % 2 ^ 8
          ∷ v / 2 ^ 16 % 2 ^ 8
          ∷ v / 2 ^ 16 / 2 ^ 8 % 2 ^ 8
          ∷ [])
        (le32 v)
le32-eq v = ground arith

-- A word written over four bytes.
pub wle32_over : (v a b c d : ℕ) (rest : List ℕ) → wle32 (a ∷ b ∷ c ∷ d ∷ rest) 0 v ≡ le32 v ++ rest
unfolding wle32
wle32_over v a b c d rest = ap (λ xs. xs ++ rest) (le32-eq v)

pub wle32-append :
    (pre xs : List ℕ) (p v : ℕ) → p ≡ length pre → wle32 (pre ++ xs) p v ≡ pre ++ wle32 xs 0 v
unfolding wle32
wle32-append pre xs p v e =
    rw
      (
        set-append pre xs p 0 (v % 2 ^ 16 % 2 ^ 8) (omega arith),
        set-append pre (set xs 0 (v % 2 ^ 16 % 2 ^ 8)) (p + 1) 1 (v % 2 ^ 16 / 2 ^ 8 % 2 ^ 8)
            (omega arith),
        set-append pre (set (set xs 0 (v % 2 ^ 16 % 2 ^ 8)) 1 (v % 2 ^ 16 / 2 ^ 8 % 2 ^ 8)) (p + 2)
            2 (v / 2 ^ 16 % 2 ^ 8) (omega arith),
        set-append pre
            (set (set (set xs 0 (v % 2 ^ 16 % 2 ^ 8)) 1 (v % 2 ^ 16 / 2 ^ 8 % 2 ^ 8)) 2
              (v / 2 ^ 16 % 2 ^ 8))
            (p + 2 + 1) 3 (v / 2 ^ 16 / 2 ^ 8 % 2 ^ 8) (omega arith),
      )
      refl

pub buf_u32-bytes : (b : Buf) (v : ℕ) → (buf_u32 b v).bytes ≡ b.bytes ++ le32 v
unfolding buf_u32
buf_u32-bytes b v = buf_put-bytes b _ ∙ ap (λ xs. b.bytes ++ xs) (wle32_over v 0 0 0 0 [] ∙ refl)

-- The bytes of a table from an offset on.
abbrev pub from : Buf → ℕ → List ℕ
from st off = drop off st.bytes

string_placed :
    (pre s : List ℕ)
    → length pre < 2 ^ 32
    → take (length s + 1) (drop (u32 (length pre)) (pre ++ (s ++ (0 ∷ [])))) ≡ s ++ (0 ∷ [])
string_placed pre s fits =
    rw (drop-append pre (s ++ (0 ∷ [])) (u32 (length pre)) 0 (omega arith))
      (take-all (s ++ (0 ∷ [])) (length s + 1) (omega (arith, length-append s (0 ∷ []))))

-- While the table is below 4 GB, the string stands at the offset returned, with its terminator, and what the table held before
-- stands where it stood.
pub strtab_add_lem :
    (st : Buf) (s : List ℕ)
    → length st.bytes + 1 < 2 ^ 32
    → (take (length s + 1) (from (strtab_add st s).0 (strtab_add st s).1) ≡ s ++ (0 ∷ []))
      × (take (length st.bytes) (strtab_add st s).0.bytes ≡ st.bytes)
unfolding strtab_add buf_put
strtab_add_lem st s fits = elim (Bool-cases (length st.bytes == 0)) [
  | inl fresh ↦ rw fresh (
    string_placed (st.bytes ++ (0 ∷ [])) s (omega (arith, length-append st.bytes (0 ∷ []))),
    rw (append_assoc st.bytes (0 ∷ []) (s ++ (0 ∷ [])))
        (take-append st.bytes _ (length st.bytes) refl),
  )
  | inr old ↦
      rw old (string_placed st.bytes s (omega arith), take-append st.bytes _ (length st.bytes) refl)
]
