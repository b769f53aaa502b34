-- ===== src/Romgen/Buffer.antt =====
-- tools/romgen.c, `buf`: the growable byte buffer, little-endian words and the string table. The
-- process exits when memory is refused, so no step behind a refusal is to be modelled.
pub mod Capacity
pub mod Words
use sdcc.Common.{
  ℕ, zero, suc, ◌+◌, ◌-◌, ◌*◌, ◌/◌, ◌%◌, ◌^◌, ◌≤◌, ◌<◌, ◌≡◌, refl, Bool, true, false, List, [], ◌∷◌,
  ◌++◌, arith, leb, ltb, ◌==◌, if◌then◌else◌, length, set, shr, u32,
}

-- `bytes` is what stands below `len`; `len` is its length.
pub record Buf : Type 0 where
  pub bytes : List ℕ
  pub cap : ℕ

abbrev pub no_buf : Buf
no_buf = record { bytes = []; cap = 0 }

-- `while (ncap < need) ncap += ncap / 2 + 16`, on fuel.
unfoldable pub grow_cap : ℕ → ℕ → ℕ → ℕ
grow_cap zero need ncap = ncap
grow_cap (suc fuel) need ncap =
    let more = grow_cap fuel need (ncap + (ncap / 2 + 16)) in if ltb ncap need then more else ncap

abbrev pub cap_for : ℕ → ℕ → ℕ
cap_for need cap = if ltb cap need then grow_cap need need (if cap == 0 then 256 else cap) else cap

unfoldable pub buf_put : Buf → List ℕ → Buf
buf_put b src = record { bytes = b.bytes ++ src; cap = cap_for (length b.bytes + length src) b.cap }

-- `wle16` and `wle32` at position `p` of an array.
abbrev pub wle16 : List ℕ → ℕ → ℕ → List ℕ
wle16 xs p v = set (set xs p (v % 2 ^ 8)) (p + 1) (shr v 8 % 2 ^ 8)

unfoldable pub wle32 : List ℕ → ℕ → ℕ → List ℕ
wle32 xs p v = wle16 (wle16 xs p (v % 2 ^ 16)) (p + 2) (shr v 16)

unfoldable pub buf_u32 : Buf → ℕ → Buf
buf_u32 b v = buf_put b (wle32 (0 ∷ 0 ∷ 0 ∷ 0 ∷ []) 0 v)

-- The table, and the offset of the new string; a first string lands behind the empty one.
unfoldable pub strtab_add : Buf → List ℕ → Buf × ℕ
strtab_add st s =
    let st' = if length st.bytes == 0 then buf_put st (0 ∷ []) else st in
    (buf_put st' (s ++ (0 ∷ [])), u32 (length st'.bytes))

-- The four bytes of a little-endian word.
abbrev pub le32 : ℕ → List ℕ
le32 v = v % 256 ∷ v / 256 % 256 ∷ v / 65536 % 256 ∷ v / 16777216 % 256 ∷ []
