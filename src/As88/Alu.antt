-- ===== src/As88/Alu.antt =====
-- sdas/as88/s1c88mch.c, `machine`, the arithmetic and logic classes S_ADD to S_XOR.
use sdcc.Common.{
  ℕ, ◌+◌, Bool, ◌&&◌, ◌||◌, Option, none, some, List, [], ◌∷◌, leb, ◌==◌, if◌then◌else◌,
}
use sdcc.As88.Operand.{
  reg_a, reg_b, Reg16, ix, iy, sp, CReg, cr_br, cr_sc, reg16_code, Operand, s_immed, s_indhl,
  s_indix, s_indiy, s_idxix, s_idxiy, s_indm, s_brll, s_r8, s_r16, s_creg,
}
use sdcc.As88.Emit.{Item, outab, outrb, outrw, e1, e2, plain, signed, no_code}

pub data AluOp : Type 0 where
  s_add s_adc s_sub s_sbc s_and s_or s_cp s_xor : AluOp

-- `m_valu` in the table of mnemonics.
abbrev pub alu_base : AluOp → ℕ
alu_base s_add = 0x00
alu_base s_adc = 0x08
alu_base s_sub = 0x10
alu_base s_sbc = 0x18
alu_base s_and = 0x20
alu_base s_or = 0x28
alu_base s_cp = 0x30
alu_base s_xor = 0x38

-- `op a,src`.
unfoldable pub alu_a : ℕ → Operand → List Item
alu_a op (s_r8 reg_a) = outab op ∷ []
alu_a op (s_r8 reg_b) = outab (op + 1) ∷ []
alu_a op s_immed = outab (op + 2) ∷ outrb e2 plain ∷ []
alu_a op s_indhl = outab (op + 3) ∷ []
alu_a op s_indix = outab (op + 6) ∷ []
alu_a op s_indiy = outab (op + 7) ∷ []
alu_a op s_indm = outab (op + 5) ∷ outrw e2 plain ∷ []
alu_a op s_idxix = outab 0xCE ∷ outab op ∷ outrb e2 signed ∷ []
alu_a op s_idxiy = outab 0xCE ∷ outab (op + 1) ∷ outrb e2 signed ∷ []
alu_a op s_brll = outab (op + 4) ∷ outrb e2 plain ∷ []
alu_a op _ = no_code

-- `cfb`; none stands for -1.
abbrev cfb : AluOp → Option ℕ
cfb s_add = some 0x00
cfb s_adc = some 0x04
cfb s_sub = some 0x08
cfb s_sbc = some 0x0C
cfb s_cp = some 0x18
cfb _ = none

-- `base`, for ix, iy and sp as the destination; none stands for -1.
abbrev index_base : AluOp → Reg16 → Option ℕ
index_base s_add ix = some 0x40
index_base s_add iy = some 0x42
index_base s_add _ = some 0x44
index_base s_sub ix = some 0x48
index_base s_sub iy = some 0x4A
index_base s_sub _ = some 0x4C
index_base s_cp sp = some 0x5C
index_base _ _ = none

abbrev prefixed : Option ℕ → ℕ → List Item
prefixed none n = no_code
prefixed (some base) n = outab 0xCF ∷ outab (base + n) ∷ []

abbrev is_ba_hl : Reg16 → Bool
is_ba_hl r = reg16_code r == 0 || reg16_code r == 1

abbrev alu16_r16 : AluOp → Reg16 → Reg16 → List Item
alu16_r16 o d r =
    if leb (reg16_code r) 3 && is_ba_hl d
    then prefixed (cfb o) ((if reg16_code d == 1 then 0x20 else 0) + reg16_code r)
    else if is_ba_hl r && (reg16_code d == 2 || reg16_code d == 3 || reg16_code d == 4)
    then prefixed (index_base o d) (if reg16_code r == 1 then 1 else 0)
    else no_code

abbrev imm16 : ℕ → ℕ → Reg16 → List Item
imm16 low wide d =
    if leb (reg16_code d) 3
    then outab (low + reg16_code d) ∷ outrw e2 plain ∷ []
    else outab 0xCF ∷ outab wide ∷ outrw e2 plain ∷ []

abbrev carry_imm16 : ℕ → Reg16 → List Item
carry_imm16 first d =
    if is_ba_hl d
    then outab 0xCF ∷ outab (first + (if reg16_code d == 1 then 1 else 0)) ∷ outrw e2 plain ∷ []
    else no_code

unfoldable pub alu16 : AluOp → Reg16 → Operand → List Item
alu16 o d (s_r16 r) = alu16_r16 o d r
alu16 s_add d s_immed = imm16 0xC0 0x68 d
alu16 s_sub d s_immed = imm16 0xD0 0x6A d
alu16 s_cp d s_immed = imm16 0xD4 0x6C d
alu16 s_adc d s_immed = carry_imm16 0x60 d
alu16 s_sbc d s_immed = carry_imm16 0x62 d
alu16 o d _ = no_code

-- `op (br:ll),#nn`.
abbrev brll_immed : AluOp → List Item
brll_immed s_and = outab 0xD8 ∷ outrb e1 plain ∷ outrb e2 plain ∷ []
brll_immed s_or = outab 0xD9 ∷ outrb e1 plain ∷ outrb e2 plain ∷ []
brll_immed s_xor = outab 0xDA ∷ outrb e1 plain ∷ outrb e2 plain ∷ []
brll_immed s_cp = outab 0xDB ∷ outrb e1 plain ∷ outrb e2 plain ∷ []
brll_immed _ = no_code

-- `op (hl),src`.
abbrev alu_indhl : ℕ → Operand → List Item
alu_indhl op (s_r8 reg_a) = outab 0xCE ∷ outab (op + 4) ∷ []
alu_indhl op s_immed = outab 0xCE ∷ outab (op + 5) ∷ outrb e2 plain ∷ []
alu_indhl op s_indix = outab 0xCE ∷ outab (op + 6) ∷ []
alu_indhl op s_indiy = outab 0xCE ∷ outab (op + 7) ∷ []
alu_indhl op _ = no_code

-- A control register and an immediate.
abbrev creg_immed : AluOp → CReg → List Item
creg_immed s_and cr_sc = outab 0x9C ∷ outrb e2 plain ∷ []
creg_immed s_or cr_sc = outab 0x9D ∷ outrb e2 plain ∷ []
creg_immed s_xor cr_sc = outab 0x9E ∷ outrb e2 plain ∷ []
creg_immed s_cp cr_br = outab 0xCE ∷ outab 0xBF ∷ outrb e2 plain ∷ []
creg_immed _ _ = no_code

unfoldable pub encode_alu : AluOp → Operand → Operand → List Item
encode_alu o (s_r8 reg_a) s = alu_a (alu_base o) s
encode_alu o (s_r16 d) s = alu16 o d s
encode_alu o s_brll s_immed = brll_immed o
encode_alu o s_indhl s = alu_indhl (alu_base o) s
encode_alu o (s_creg c) s_immed = creg_immed o c
encode_alu o _ _ = no_code
