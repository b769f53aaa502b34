-- ===== src/As88/Other.antt =====
-- sdas/as88/s1c88mch.c, `machine`: the classes with one operand, and the exchange and bit tests.
use sdcc.Common.{ℕ, ◌+◌, List, [], ◌∷◌, leb, if◌then◌else◌}
use sdcc.As88.Operand.{
  reg_a, reg_b, ba, hl, sp, CReg, cr_br, cr_sc, cr_ep, cr_ip, reg8_code, reg16_code, pall_code,
  Operand, s_immed, s_indhl, s_indm, s_brll, s_user, s_r8, s_r16, s_creg, s_pall,
}
use sdcc.As88.Emit.{Item, outab, outrb, outrw, e1, e2, based, past, plain, pcr, no_code}

-- S_INC and S_DEC lie eight codes apart: `first` is 0x80 or 0x88.
unfoldable pub encode_step : ℕ → Operand → List Item
encode_step first (s_r8 r) = outab (first + reg8_code r) ∷ []
encode_step first (s_r16 sp) = outab (first + 7) ∷ []
encode_step first (s_r16 r) = outab (first + 0x10 + reg16_code r) ∷ []
encode_step first (s_creg cr_br) = outab (first + 4) ∷ []
encode_step first s_indhl = outab (first + 6) ∷ []
encode_step first s_brll = outab (first + 5) ∷ outrb e1 plain ∷ []
encode_step first _ = no_code

-- `first` is 0xA4 for S_PUSH and 0xAC for S_POP.
abbrev stack_creg : ℕ → CReg → List Item
stack_creg first cr_br = outab first ∷ []
stack_creg first cr_ep = outab (first + 1) ∷ []
stack_creg first cr_ip = outab (first + 2) ∷ []
stack_creg first cr_sc = outab (first + 3) ∷ []
stack_creg first _ = no_code

unfoldable pub encode_push : Operand → List Item
encode_push (s_r16 sp) = no_code
encode_push (s_r16 r) = outab (0xA0 + reg16_code r) ∷ []
encode_push (s_r8 r) = outab 0xCF ∷ outab (0xB0 + reg8_code r) ∷ []
encode_push (s_creg c) = stack_creg 0xA4 c
encode_push (s_pall p) = outab 0xCF ∷ outab (0xB8 + pall_code p) ∷ []
encode_push _ = no_code

unfoldable pub encode_pop : Operand → List Item
encode_pop (s_r16 sp) = no_code
encode_pop (s_r16 r) = outab (0xA8 + reg16_code r) ∷ []
encode_pop (s_r8 r) = outab 0xCF ∷ outab (0xB4 + reg8_code r) ∷ []
encode_pop (s_creg c) = stack_creg 0xAC c
encode_pop (s_pall p) = outab 0xCF ∷ outab (0xBC + pall_code p) ∷ []
encode_pop _ = no_code

unfoldable pub encode_ex : Operand → Operand → List Item
encode_ex (s_r16 ba) (s_r16 r) =
    if leb 1 (reg16_code r) then outab (0xC7 + reg16_code r) ∷ [] else no_code
encode_ex (s_r8 reg_a) (s_r8 reg_b) = outab 0xCC ∷ []
encode_ex (s_r8 reg_a) s_indhl = outab 0xCD ∷ []
encode_ex _ _ = no_code

-- `jp` without a condition; for a label it is `jrl`, with the bias of the linker's base.
unfoldable pub encode_jp : Operand → List Item
encode_jp (s_r16 hl) = outab 0xF4 ∷ []
encode_jp s_indm = outab 0xFD ∷ outrb e1 plain ∷ []
encode_jp s_user = outab 0xF3 ∷ outrw (past (based e1)) pcr ∷ []
encode_jp _ = no_code

unfoldable pub encode_int : Operand → List Item
encode_int s_indm = outab 0xFC ∷ outrb e1 plain ∷ []
encode_int _ = no_code

unfoldable pub encode_call : Operand → List Item
encode_call s_indm = outab 0xFB ∷ outrw e1 plain ∷ []
encode_call _ = no_code

-- The rotations, shifts, `cpl` and `neg`, with their code from the table of mnemonics.
unfoldable pub encode_rot : ℕ → Operand → List Item
encode_rot op (s_r8 reg_a) = outab 0xCE ∷ outab op ∷ []
encode_rot op (s_r8 reg_b) = outab 0xCE ∷ outab (op + 1) ∷ []
encode_rot op s_brll = outab 0xCE ∷ outab (op + 2) ∷ outrb e1 plain ∷ []
encode_rot op s_indhl = outab 0xCE ∷ outab (op + 3) ∷ []
encode_rot op _ = no_code

unfoldable pub encode_swap : Operand → List Item
encode_swap (s_r8 reg_a) = outab 0xF6 ∷ []
encode_swap s_indhl = outab 0xF7 ∷ []
encode_swap _ = no_code

unfoldable pub encode_bit : Operand → Operand → List Item
encode_bit (s_r8 reg_a) (s_r8 reg_b) = outab 0x94 ∷ []
encode_bit (s_r8 reg_a) s_immed = outab 0x96 ∷ outrb e2 plain ∷ []
encode_bit (s_r8 reg_b) s_immed = outab 0x97 ∷ outrb e2 plain ∷ []
encode_bit s_indhl s_immed = outab 0x95 ∷ outrb e2 plain ∷ []
encode_bit s_brll s_immed = outab 0xDC ∷ outrb e1 plain ∷ outrb e2 plain ∷ []
encode_bit _ _ = no_code
