-- ===== src/As88/Tables.antt =====
-- sdas/as88/s1c88adr.c: the tables of register and condition names, in the order in which `admode`
-- goes through them.
use sdcc.Common.{ℕ, List, [], ◌∷◌}
use sdcc.As88.Operand.{
  reg_a, reg_b, reg_l, reg_h, ba, hl, ix, iy, sp, cr_br, cr_sc, cr_nb, cr_ep, cr_xp, cr_yp, cr_ip,
  all_regs, ale, reg8_code, reg16_code, creg_code, pall_code,
}
use sdcc.As88.Branch.{
  cc_c, cc_nc, cc_z, cc_nz, cc_lt, cc_le, cc_gt, cc_ge, cc_v, cc_nv, cc_p, cc_m, cc_f0, cc_f1,
  cc_f2, cc_f3, cc_nf0, cc_nf1, cc_nf2, cc_nf3, cc_code, signed_code,
}
use sdcc.As88.Lexer.{Text, AdSym}

abbrev named : Text → ℕ → AdSym
named str val = record { a_str = str; a_val = val }

abbrev pub r8_table : List AdSym
r8_table =
    named (b'a' ∷ []) (reg8_code reg_a)
    ∷ named (b'b' ∷ []) (reg8_code reg_b)
    ∷ named (b'l' ∷ []) (reg8_code reg_l)
    ∷ named (b'h' ∷ []) (reg8_code reg_h)
    ∷ []

abbrev pub r16_table : List AdSym
r16_table =
    named (b'b' ∷ b'a' ∷ []) (reg16_code ba)
    ∷ named (b'h' ∷ b'l' ∷ []) (reg16_code hl)
    ∷ named (b'i' ∷ b'x' ∷ []) (reg16_code ix)
    ∷ named (b'i' ∷ b'y' ∷ []) (reg16_code iy)
    ∷ named (b's' ∷ b'p' ∷ []) (reg16_code sp)
    ∷ []

abbrev pub cr_table : List AdSym
cr_table =
    named (b'b' ∷ b'r' ∷ []) (creg_code cr_br)
    ∷ named (b's' ∷ b'c' ∷ []) (creg_code cr_sc)
    ∷ named (b'n' ∷ b'b' ∷ []) (creg_code cr_nb)
    ∷ named (b'e' ∷ b'p' ∷ []) (creg_code cr_ep)
    ∷ named (b'x' ∷ b'p' ∷ []) (creg_code cr_xp)
    ∷ named (b'y' ∷ b'p' ∷ []) (creg_code cr_yp)
    ∷ named (b'i' ∷ b'p' ∷ []) (creg_code cr_ip)
    ∷ []

abbrev pub pall_table : List AdSym
pall_table =
    named (b'a' ∷ b'l' ∷ b'l' ∷ []) (pall_code all_regs)
    ∷ named (b'a' ∷ b'l' ∷ b'e' ∷ []) (pall_code ale)
    ∷ []

abbrev pub cnd_table : List AdSym
cnd_table =
    named (b'n' ∷ b'z' ∷ []) (cc_code cc_nz)
    ∷ named (b'n' ∷ b'c' ∷ []) (cc_code cc_nc)
    ∷ named (b'z' ∷ []) (cc_code cc_z)
    ∷ named (b'c' ∷ []) (cc_code cc_c)
    ∷ []

abbrev pub cnde_table : List AdSym
cnde_table =
    named (b'l' ∷ b't' ∷ []) (signed_code cc_lt)
    ∷ named (b'l' ∷ b'e' ∷ []) (signed_code cc_le)
    ∷ named (b'g' ∷ b't' ∷ []) (signed_code cc_gt)
    ∷ named (b'g' ∷ b'e' ∷ []) (signed_code cc_ge)
    ∷ named (b'n' ∷ b'v' ∷ []) (signed_code cc_nv)
    ∷ named (b'v' ∷ []) (signed_code cc_v)
    ∷ named (b'p' ∷ []) (signed_code cc_p)
    ∷ named (b'm' ∷ []) (signed_code cc_m)
    ∷ named (b'n' ∷ b'f' ∷ b'0' ∷ []) (signed_code cc_nf0)
    ∷ named (b'n' ∷ b'f' ∷ b'1' ∷ []) (signed_code cc_nf1)
    ∷ named (b'n' ∷ b'f' ∷ b'2' ∷ []) (signed_code cc_nf2)
    ∷ named (b'n' ∷ b'f' ∷ b'3' ∷ []) (signed_code cc_nf3)
    ∷ named (b'f' ∷ b'0' ∷ []) (signed_code cc_f0)
    ∷ named (b'f' ∷ b'1' ∷ []) (signed_code cc_f1)
    ∷ named (b'f' ∷ b'2' ∷ []) (signed_code cc_f2)
    ∷ named (b'f' ∷ b'3' ∷ []) (signed_code cc_f3)
    ∷ []
