-- ===== src/As88/Manual/Complete.antt =====
-- The operation code map, row by row, put to the encoder of sdas/as88/s1c88mch.c.
use sdcc.Common.{ℕ, Bool, true, false, ◌&&◌, ◌||◌, List, [], ◌∷◌, ◌==◌, zero, suc}
use sdcc.As88.Operand.{
  s_r8, reg_a, Operand, s_indhl, s_indix, s_indiy, s_idxix, s_idxiy, s_indm, s_brll,
}
use sdcc.As88.Emit.{opcodes}
use sdcc.As88.Machine.{s_alu, s_ld, Instr, binary, machine}
use sdcc.As88.Manual.{Row, row, other}
use sdcc.As88.Manual.Decode.{manual}

-- A place in memory that a load may name.
abbrev in_memory : Operand → Bool
in_memory s_indhl = true
in_memory s_indix = true
in_memory s_indiy = true
in_memory s_idxix = true
in_memory s_idxiy = true
in_memory s_indm = true
in_memory s_brll = true
in_memory _ = false

-- The accumulator is the only byte register the assembler computes in.
abbrev other_byte : Operand → Bool
other_byte (s_r8 reg_a) = false
other_byte (s_r8 r) = true
other_byte _ = false

-- What the assembler does not offer: loads from memory to memory, and the logic on b, l and h.
abbrev pub not_offered : Instr → Bool
not_offered (binary s_ld d s) = in_memory d && in_memory s
not_offered (binary (s_alu o) d s) = other_byte d
not_offered _ = false

abbrev same_code : List ℕ → List ℕ → Bool
same_code [] [] = true
same_code (x ∷ xs) (y ∷ ys) = (x == y) && same_code xs ys
same_code _ _ = false

abbrev covers : List ℕ → Row → Bool
covers code other = true
covers code (row i n) = not_offered i || same_code (opcodes (machine i)) code

-- The codes below `n`.
abbrev all_below : (ℕ → Bool) → ℕ → Bool
all_below p zero = true
all_below p (suc n) = p n && all_below p n

abbrev row_ok : (ℕ → List ℕ) → ℕ → Bool
row_ok code n = covers (code n) (manual (code n))

abbrev behind : ℕ → ℕ → List ℕ
behind prefix n = prefix ∷ n ∷ []
