-- ===== src/As88/Load.antt =====
-- sdas/as88/s1c88mch.c, `machine`, `case S_LD`.
use sdcc.Common.{ℕ, ◌+◌, ◌*◌, ◌-◌, ◌&&◌, List, [], ◌∷◌, leb, if◌then◌else◌}
use sdcc.As88.Operand.{
  reg_a, Reg16, ba, hl, ix, sp, CReg, cr_br, cr_sc, reg8_code, reg16_code, creg_code, Operand,
  s_immed, s_indhl, s_indix, s_indiy, s_idxix, s_idxiy, s_indm, s_idxsp, s_brll, s_r8, s_r16,
  s_creg,
}
use sdcc.As88.Emit.{Item, outab, outrb, outrw, e1, e2, plain, signed, no_code}

-- `v >= CR_NB && v <= CR_YP`, with the code of the block's first instruction.
abbrev paged : ℕ → CReg → List Item → List Item
paged first c rest =
    if leb 2 (creg_code c) && leb (creg_code c) 5
    then outab 0xCE ∷ outab (first + (creg_code c - 2)) ∷ rest
    else no_code

unfoldable pub ld_a_creg : CReg → List Item
ld_a_creg cr_br = outab 0xCE ∷ outab 0xC0 ∷ []
ld_a_creg cr_sc = outab 0xCE ∷ outab 0xC1 ∷ []
ld_a_creg c = paged 0xC8 c []

unfoldable pub ld_creg_a : CReg → List Item
ld_creg_a cr_br = outab 0xCE ∷ outab 0xC2 ∷ []
ld_creg_a cr_sc = outab 0xCE ∷ outab 0xC3 ∷ []
ld_creg_a c = paged 0xCC c []

unfoldable pub ld_creg_immed : CReg → List Item
ld_creg_immed cr_br = outab 0xB4 ∷ outrb e2 plain ∷ []
ld_creg_immed cr_sc = outab 0x9F ∷ outrb e2 plain ∷ []
ld_creg_immed c = paged 0xC4 c (outrb e2 plain ∷ [])

-- `v1 << 3` is a multiplication by 8.
unfoldable pub ld_r8 : ℕ → Operand → List Item
ld_r8 v1 (s_r8 r) = outab (0x40 + v1 * 8 + reg8_code r) ∷ []
ld_r8 v1 s_immed = outab (0xB0 + v1) ∷ outrb e2 plain ∷ []
ld_r8 v1 s_indhl = outab (0x40 + v1 * 8 + 5) ∷ []
ld_r8 v1 s_indix = outab (0x40 + v1 * 8 + 6) ∷ []
ld_r8 v1 s_indiy = outab (0x40 + v1 * 8 + 7) ∷ []
ld_r8 v1 s_idxix = outab 0xCE ∷ outab (0x40 + v1 * 8) ∷ outrb e2 signed ∷ []
ld_r8 v1 s_idxiy = outab 0xCE ∷ outab (0x41 + v1 * 8) ∷ outrb e2 signed ∷ []
ld_r8 v1 s_indm = outab 0xCE ∷ outab (0xD0 + v1) ∷ outrw e2 plain ∷ []
ld_r8 v1 s_brll = outab (0x44 + v1 * 8) ∷ outrb e2 plain ∷ []
ld_r8 v1 _ = no_code

abbrev from_sp : Reg16 → ℕ
from_sp ba = 0xF8
from_sp hl = 0xF4
from_sp ix = 0xFA
from_sp _ = 0xFE

abbrev ld_r16_r16 : Reg16 → Reg16 → List Item
ld_r16_r16 sp sp = outab 0xCF ∷ outab (from_sp sp) ∷ []
ld_r16_r16 sp r = outab 0xCF ∷ outab (0xF0 + reg16_code r) ∷ []
ld_r16_r16 d sp = outab 0xCF ∷ outab (from_sp d) ∷ []
ld_r16_r16 d r = outab 0xCF ∷ outab (0xE0 + reg16_code d * 4 + reg16_code r) ∷ []

-- With a register pair other than SP: `CF`, then the code.
abbrev pair : ℕ → Reg16 → List Item → List Item
pair first r rest =
    if leb (reg16_code r) 3 then outab 0xCF ∷ outab (first + reg16_code r) ∷ rest else no_code

unfoldable pub ld_r16 : Reg16 → Operand → List Item
ld_r16 sp s_immed = outab 0xCF ∷ outab 0x6E ∷ outrw e2 plain ∷ []
ld_r16 d s_immed = outab (0xC4 + reg16_code d) ∷ outrw e2 plain ∷ []
ld_r16 sp s_indm = outab 0xCF ∷ outab 0x78 ∷ outrw e2 plain ∷ []
ld_r16 d s_indm = outab (0xB8 + reg16_code d) ∷ outrw e2 plain ∷ []
ld_r16 d (s_r16 r) = ld_r16_r16 d r
ld_r16 d s_indhl = pair 0xC0 d []
ld_r16 d s_indix = pair 0xD0 d []
ld_r16 d s_indiy = pair 0xD8 d []
ld_r16 d s_idxsp = pair 0x70 d (outrb e2 signed ∷ [])
ld_r16 d _ = no_code

unfoldable pub encode_ld : Operand → Operand → List Item
encode_ld (s_r8 reg_a) (s_creg c) = ld_a_creg c
encode_ld (s_creg c) (s_r8 reg_a) = ld_creg_a c
encode_ld (s_creg c) s_immed = ld_creg_immed c
encode_ld (s_r8 d) s = ld_r8 (reg8_code d) s
encode_ld s_brll (s_r8 r) = outab (0x78 + reg8_code r) ∷ outrb e1 plain ∷ []
encode_ld s_brll s_immed = outab 0xDD ∷ outrb e1 plain ∷ outrb e2 plain ∷ []
encode_ld s_indhl (s_r8 r) = outab (0x68 + reg8_code r) ∷ []
encode_ld s_indix (s_r8 r) = outab (0x60 + reg8_code r) ∷ []
encode_ld s_indiy (s_r8 r) = outab (0x70 + reg8_code r) ∷ []
encode_ld s_idxix (s_r8 r) = outab 0xCE ∷ outab (0x44 + reg8_code r * 8) ∷ outrb e1 signed ∷ []
encode_ld s_idxiy (s_r8 r) = outab 0xCE ∷ outab (0x44 + reg8_code r * 8 + 1) ∷ outrb e1 signed ∷ []
encode_ld s_indm (s_r8 r) = outab 0xCE ∷ outab (0xD4 + reg8_code r) ∷ outrw e1 plain ∷ []
encode_ld (s_r16 d) s = ld_r16 d s
encode_ld s_indhl (s_r16 r) = pair 0xC4 r []
encode_ld s_indix (s_r16 r) = pair 0xD4 r []
encode_ld s_indiy (s_r16 r) = pair 0xDC r []
encode_ld s_indhl s_immed = outab 0xB5 ∷ outrb e2 plain ∷ []
encode_ld s_indix s_immed = outab 0xB6 ∷ outrb e2 plain ∷ []
encode_ld s_indiy s_immed = outab 0xB7 ∷ outrb e2 plain ∷ []
encode_ld s_idxsp (s_r16 r) = pair 0x74 r (outrb e1 signed ∷ [])
encode_ld s_indm (s_r16 sp) = outab 0xCF ∷ outab 0x7C ∷ outrw e1 plain ∷ []
encode_ld s_indm (s_r16 r) = outab (0xBC + reg16_code r) ∷ outrw e1 plain ∷ []
encode_ld _ _ = no_code
