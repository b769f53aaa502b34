-- ===== src/As88/Manual/Ce.antt =====
-- The S1C88's operation code map: the codes behind CE, in rows of sixteen. The instructions that name
-- a branch target or a register the assembler does not know are left open.
use sdcc.Common.{List, [], ◌∷◌}
use sdcc.As88.Operand.{
  reg_a, reg_b, reg_l, reg_h, cr_br, cr_sc, cr_nb, cr_ep, cr_xp, cr_yp, s_immed, s_indhl, s_indix,
  s_indiy, s_idxix, s_idxiy, s_indm, s_brll, s_r8, s_creg,
}
use sdcc.As88.Alu.{s_add, s_adc, s_sub, s_sbc, s_and, s_or, s_cp, s_xor}
use sdcc.As88.Machine.{
  mlt, div, sep, halt, slp, sla, sll, sra, srl, rl, rlc, rr, rrc, cpl, neg, s_rot, s_ld, s_alu,
  inherent, unary, binary,
}
use sdcc.As88.Manual.{Row, row, other}

abbrev from_00 : List Row
from_00 =
    row (binary (s_alu s_add) (s_r8 reg_a) s_idxix) 1
    ∷ row (binary (s_alu s_add) (s_r8 reg_a) s_idxiy) 1
    ∷ other
    ∷ other
    ∷ row (binary (s_alu s_add) s_indhl (s_r8 reg_a)) 0
    ∷ row (binary (s_alu s_add) s_indhl s_immed) 1
    ∷ row (binary (s_alu s_add) s_indhl s_indix) 0
    ∷ row (binary (s_alu s_add) s_indhl s_indiy) 0
    ∷ row (binary (s_alu s_adc) (s_r8 reg_a) s_idxix) 1
    ∷ row (binary (s_alu s_adc) (s_r8 reg_a) s_idxiy) 1
    ∷ other
    ∷ other
    ∷ row (binary (s_alu s_adc) s_indhl (s_r8 reg_a)) 0
    ∷ row (binary (s_alu s_adc) s_indhl s_immed) 1
    ∷ row (binary (s_alu s_adc) s_indhl s_indix) 0
    ∷ row (binary (s_alu s_adc) s_indhl s_indiy) 0
    ∷ []

abbrev from_10 : List Row
from_10 =
    row (binary (s_alu s_sub) (s_r8 reg_a) s_idxix) 1
    ∷ row (binary (s_alu s_sub) (s_r8 reg_a) s_idxiy) 1
    ∷ other
    ∷ other
    ∷ row (binary (s_alu s_sub) s_indhl (s_r8 reg_a)) 0
    ∷ row (binary (s_alu s_sub) s_indhl s_immed) 1
    ∷ row (binary (s_alu s_sub) s_indhl s_indix) 0
    ∷ row (binary (s_alu s_sub) s_indhl s_indiy) 0
    ∷ row (binary (s_alu s_sbc) (s_r8 reg_a) s_idxix) 1
    ∷ row (binary (s_alu s_sbc) (s_r8 reg_a) s_idxiy) 1
    ∷ other
    ∷ other
    ∷ row (binary (s_alu s_sbc) s_indhl (s_r8 reg_a)) 0
    ∷ row (binary (s_alu s_sbc) s_indhl s_immed) 1
    ∷ row (binary (s_alu s_sbc) s_indhl s_indix) 0
    ∷ row (binary (s_alu s_sbc) s_indhl s_indiy) 0
    ∷ []

abbrev from_20 : List Row
from_20 =
    row (binary (s_alu s_and) (s_r8 reg_a) s_idxix) 1
    ∷ row (binary (s_alu s_and) (s_r8 reg_a) s_idxiy) 1
    ∷ other
    ∷ other
    ∷ row (binary (s_alu s_and) s_indhl (s_r8 reg_a)) 0
    ∷ row (binary (s_alu s_and) s_indhl s_immed) 1
    ∷ row (binary (s_alu s_and) s_indhl s_indix) 0
    ∷ row (binary (s_alu s_and) s_indhl s_indiy) 0
    ∷ row (binary (s_alu s_or) (s_r8 reg_a) s_idxix) 1
    ∷ row (binary (s_alu s_or) (s_r8 reg_a) s_idxiy) 1
    ∷ other
    ∷ other
    ∷ row (binary (s_alu s_or) s_indhl (s_r8 reg_a)) 0
    ∷ row (binary (s_alu s_or) s_indhl s_immed) 1
    ∷ row (binary (s_alu s_or) s_indhl s_indix) 0
    ∷ row (binary (s_alu s_or) s_indhl s_indiy) 0
    ∷ []

abbrev from_30 : List Row
from_30 =
    row (binary (s_alu s_cp) (s_r8 reg_a) s_idxix) 1
    ∷ row (binary (s_alu s_cp) (s_r8 reg_a) s_idxiy) 1
    ∷ other
    ∷ other
    ∷ row (binary (s_alu s_cp) s_indhl (s_r8 reg_a)) 0
    ∷ row (binary (s_alu s_cp) s_indhl s_immed) 1
    ∷ row (binary (s_alu s_cp) s_indhl s_indix) 0
    ∷ row (binary (s_alu s_cp) s_indhl s_indiy) 0
    ∷ row (binary (s_alu s_xor) (s_r8 reg_a) s_idxix) 1
    ∷ row (binary (s_alu s_xor) (s_r8 reg_a) s_idxiy) 1
    ∷ other
    ∷ other
    ∷ row (binary (s_alu s_xor) s_indhl (s_r8 reg_a)) 0
    ∷ row (binary (s_alu s_xor) s_indhl s_immed) 1
    ∷ row (binary (s_alu s_xor) s_indhl s_indix) 0
    ∷ row (binary (s_alu s_xor) s_indhl s_indiy) 0
    ∷ []

abbrev from_40 : List Row
from_40 =
    row (binary s_ld (s_r8 reg_a) s_idxix) 1
    ∷ row (binary s_ld (s_r8 reg_a) s_idxiy) 1
    ∷ other
    ∷ other
    ∷ row (binary s_ld s_idxix (s_r8 reg_a)) 1
    ∷ row (binary s_ld s_idxiy (s_r8 reg_a)) 1
    ∷ other
    ∷ other
    ∷ row (binary s_ld (s_r8 reg_b) s_idxix) 1
    ∷ row (binary s_ld (s_r8 reg_b) s_idxiy) 1
    ∷ other
    ∷ other
    ∷ row (binary s_ld s_idxix (s_r8 reg_b)) 1
    ∷ row (binary s_ld s_idxiy (s_r8 reg_b)) 1
    ∷ other
    ∷ other
    ∷ []

abbrev from_50 : List Row
from_50 =
    row (binary s_ld (s_r8 reg_l) s_idxix) 1
    ∷ row (binary s_ld (s_r8 reg_l) s_idxiy) 1
    ∷ other
    ∷ other
    ∷ row (binary s_ld s_idxix (s_r8 reg_l)) 1
    ∷ row (binary s_ld s_idxiy (s_r8 reg_l)) 1
    ∷ other
    ∷ other
    ∷ row (binary s_ld (s_r8 reg_h) s_idxix) 1
    ∷ row (binary s_ld (s_r8 reg_h) s_idxiy) 1
    ∷ other
    ∷ other
    ∷ row (binary s_ld s_idxix (s_r8 reg_h)) 1
    ∷ row (binary s_ld s_idxiy (s_r8 reg_h)) 1
    ∷ other
    ∷ other
    ∷ []

abbrev from_60 : List Row
from_60 =
    row (binary s_ld s_indhl s_idxix) 1
    ∷ row (binary s_ld s_indhl s_idxiy) 1
    ∷ other
    ∷ other
    ∷ other
    ∷ other
    ∷ other
    ∷ other
    ∷ row (binary s_ld s_indix s_idxix) 1
    ∷ row (binary s_ld s_indix s_idxiy) 1
    ∷ other
    ∷ other
    ∷ other
    ∷ other
    ∷ other
    ∷ other
    ∷ []

abbrev from_70 : List Row
from_70 =
    other
    ∷ other
    ∷ other
    ∷ other
    ∷ other
    ∷ other
    ∷ other
    ∷ other
    ∷ row (binary s_ld s_indiy s_idxix) 1
    ∷ row (binary s_ld s_indiy s_idxiy) 1
    ∷ other
    ∷ other
    ∷ other
    ∷ other
    ∷ other
    ∷ other
    ∷ []

abbrev from_80 : List Row
from_80 =
    row (unary (s_rot sla) (s_r8 reg_a)) 0
    ∷ row (unary (s_rot sla) (s_r8 reg_b)) 0
    ∷ row (unary (s_rot sla) s_brll) 1
    ∷ row (unary (s_rot sla) s_indhl) 0
    ∷ row (unary (s_rot sll) (s_r8 reg_a)) 0
    ∷ row (unary (s_rot sll) (s_r8 reg_b)) 0
    ∷ row (unary (s_rot sll) s_brll) 1
    ∷ row (unary (s_rot sll) s_indhl) 0
    ∷ row (unary (s_rot sra) (s_r8 reg_a)) 0
    ∷ row (unary (s_rot sra) (s_r8 reg_b)) 0
    ∷ row (unary (s_rot sra) s_brll) 1
    ∷ row (unary (s_rot sra) s_indhl) 0
    ∷ row (unary (s_rot srl) (s_r8 reg_a)) 0
    ∷ row (unary (s_rot srl) (s_r8 reg_b)) 0
    ∷ row (unary (s_rot srl) s_brll) 1
    ∷ row (unary (s_rot srl) s_indhl) 0
    ∷ []

abbrev from_90 : List Row
from_90 =
    row (unary (s_rot rl) (s_r8 reg_a)) 0
    ∷ row (unary (s_rot rl) (s_r8 reg_b)) 0
    ∷ row (unary (s_rot rl) s_brll) 1
    ∷ row (unary (s_rot rl) s_indhl) 0
    ∷ row (unary (s_rot rlc) (s_r8 reg_a)) 0
    ∷ row (unary (s_rot rlc) (s_r8 reg_b)) 0
    ∷ row (unary (s_rot rlc) s_brll) 1
    ∷ row (unary (s_rot rlc) s_indhl) 0
    ∷ row (unary (s_rot rr) (s_r8 reg_a)) 0
    ∷ row (unary (s_rot rr) (s_r8 reg_b)) 0
    ∷ row (unary (s_rot rr) s_brll) 1
    ∷ row (unary (s_rot rr) s_indhl) 0
    ∷ row (unary (s_rot rrc) (s_r8 reg_a)) 0
    ∷ row (unary (s_rot rrc) (s_r8 reg_b)) 0
    ∷ row (unary (s_rot rrc) s_brll) 1
    ∷ row (unary (s_rot rrc) s_indhl) 0
    ∷ []

abbrev from_a0 : List Row
from_a0 =
    row (unary (s_rot cpl) (s_r8 reg_a)) 0
    ∷ row (unary (s_rot cpl) (s_r8 reg_b)) 0
    ∷ row (unary (s_rot cpl) s_brll) 1
    ∷ row (unary (s_rot cpl) s_indhl) 0
    ∷ row (unary (s_rot neg) (s_r8 reg_a)) 0
    ∷ row (unary (s_rot neg) (s_r8 reg_b)) 0
    ∷ row (unary (s_rot neg) s_brll) 1
    ∷ row (unary (s_rot neg) s_indhl) 0
    ∷ row (inherent sep) 0
    ∷ other
    ∷ other
    ∷ other
    ∷ other
    ∷ other
    ∷ row (inherent halt) 0
    ∷ row (inherent slp) 0
    ∷ []

abbrev from_b0 : List Row
from_b0 =
    row (binary (s_alu s_and) (s_r8 reg_b) s_immed) 1
    ∷ row (binary (s_alu s_and) (s_r8 reg_l) s_immed) 1
    ∷ row (binary (s_alu s_and) (s_r8 reg_h) s_immed) 1
    ∷ other
    ∷ row (binary (s_alu s_or) (s_r8 reg_b) s_immed) 1
    ∷ row (binary (s_alu s_or) (s_r8 reg_l) s_immed) 1
    ∷ row (binary (s_alu s_or) (s_r8 reg_h) s_immed) 1
    ∷ other
    ∷ row (binary (s_alu s_xor) (s_r8 reg_b) s_immed) 1
    ∷ row (binary (s_alu s_xor) (s_r8 reg_l) s_immed) 1
    ∷ row (binary (s_alu s_xor) (s_r8 reg_h) s_immed) 1
    ∷ other
    ∷ row (binary (s_alu s_cp) (s_r8 reg_b) s_immed) 1
    ∷ row (binary (s_alu s_cp) (s_r8 reg_l) s_immed) 1
    ∷ row (binary (s_alu s_cp) (s_r8 reg_h) s_immed) 1
    ∷ row (binary (s_alu s_cp) (s_creg cr_br) s_immed) 1
    ∷ []

abbrev from_c0 : List Row
from_c0 =
    row (binary s_ld (s_r8 reg_a) (s_creg cr_br)) 0
    ∷ row (binary s_ld (s_r8 reg_a) (s_creg cr_sc)) 0
    ∷ row (binary s_ld (s_creg cr_br) (s_r8 reg_a)) 0
    ∷ row (binary s_ld (s_creg cr_sc) (s_r8 reg_a)) 0
    ∷ row (binary s_ld (s_creg cr_nb) s_immed) 1
    ∷ row (binary s_ld (s_creg cr_ep) s_immed) 1
    ∷ row (binary s_ld (s_creg cr_xp) s_immed) 1
    ∷ row (binary s_ld (s_creg cr_yp) s_immed) 1
    ∷ row (binary s_ld (s_r8 reg_a) (s_creg cr_nb)) 0
    ∷ row (binary s_ld (s_r8 reg_a) (s_creg cr_ep)) 0
    ∷ row (binary s_ld (s_r8 reg_a) (s_creg cr_xp)) 0
    ∷ row (binary s_ld (s_r8 reg_a) (s_creg cr_yp)) 0
    ∷ row (binary s_ld (s_creg cr_nb) (s_r8 reg_a)) 0
    ∷ row (binary s_ld (s_creg cr_ep) (s_r8 reg_a)) 0
    ∷ row (binary s_ld (s_creg cr_xp) (s_r8 reg_a)) 0
    ∷ row (binary s_ld (s_creg cr_yp) (s_r8 reg_a)) 0
    ∷ []

abbrev from_d0 : List Row
from_d0 =
    row (binary s_ld (s_r8 reg_a) s_indm) 2
    ∷ row (binary s_ld (s_r8 reg_b) s_indm) 2
    ∷ row (binary s_ld (s_r8 reg_l) s_indm) 2
    ∷ row (binary s_ld (s_r8 reg_h) s_indm) 2
    ∷ row (binary s_ld s_indm (s_r8 reg_a)) 2
    ∷ row (binary s_ld s_indm (s_r8 reg_b)) 2
    ∷ row (binary s_ld s_indm (s_r8 reg_l)) 2
    ∷ row (binary s_ld s_indm (s_r8 reg_h)) 2
    ∷ row (inherent mlt) 0
    ∷ row (inherent div) 0
    ∷ other
    ∷ other
    ∷ other
    ∷ other
    ∷ other
    ∷ other
    ∷ []

abbrev blank : List Row
blank =
    other ∷ other ∷ other ∷ other ∷ other ∷ other ∷ other ∷ other ∷ other ∷ other ∷ other ∷ other
    ∷ other ∷ other ∷ other ∷ other ∷ []

abbrev pub ce_page : List (List Row)
ce_page =
    from_00 ∷ from_10 ∷ from_20 ∷ from_30 ∷ from_40 ∷ from_50 ∷ from_60 ∷ from_70 ∷ from_80
    ∷ from_90 ∷ from_a0 ∷ from_b0 ∷ from_c0 ∷ from_d0 ∷ blank ∷ blank ∷ []
