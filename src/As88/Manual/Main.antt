-- ===== src/As88/Manual/Main.antt =====
-- The S1C88's operation code map: the codes without a prefix, in rows of sixteen. The instructions that name
-- a branch target or a register the assembler does not know are left open.
use sdcc.Common.{List, [], ◌∷◌}
use sdcc.As88.Operand.{
  reg_a, reg_b, reg_l, reg_h, ba, hl, ix, iy, sp, cr_br, cr_sc, cr_ep, cr_ip, s_immed, s_indhl,
  s_indix, s_indiy, s_indm, s_brll, s_user, s_r8, s_r16, s_creg,
}
use sdcc.As88.Alu.{s_add, s_adc, s_sub, s_sbc, s_and, s_or, s_cp, s_xor}
use sdcc.As88.Machine.{
  ret, rete, rets, pack, upck, nop, s_inc, s_dec, s_push, s_pop, s_jp, s_int, s_call, s_swap, s_ld,
  s_ex, s_bit, s_alu, inherent, unary, binary,
}
use sdcc.As88.Manual.{Row, row, other}

abbrev from_00 : List Row
from_00 =
    row (binary (s_alu s_add) (s_r8 reg_a) (s_r8 reg_a)) 0
    ∷ row (binary (s_alu s_add) (s_r8 reg_a) (s_r8 reg_b)) 0
    ∷ row (binary (s_alu s_add) (s_r8 reg_a) s_immed) 1
    ∷ row (binary (s_alu s_add) (s_r8 reg_a) s_indhl) 0
    ∷ row (binary (s_alu s_add) (s_r8 reg_a) s_brll) 1
    ∷ row (binary (s_alu s_add) (s_r8 reg_a) s_indm) 2
    ∷ row (binary (s_alu s_add) (s_r8 reg_a) s_indix) 0
    ∷ row (binary (s_alu s_add) (s_r8 reg_a) s_indiy) 0
    ∷ row (binary (s_alu s_adc) (s_r8 reg_a) (s_r8 reg_a)) 0
    ∷ row (binary (s_alu s_adc) (s_r8 reg_a) (s_r8 reg_b)) 0
    ∷ row (binary (s_alu s_adc) (s_r8 reg_a) s_immed) 1
    ∷ row (binary (s_alu s_adc) (s_r8 reg_a) s_indhl) 0
    ∷ row (binary (s_alu s_adc) (s_r8 reg_a) s_brll) 1
    ∷ row (binary (s_alu s_adc) (s_r8 reg_a) s_indm) 2
    ∷ row (binary (s_alu s_adc) (s_r8 reg_a) s_indix) 0
    ∷ row (binary (s_alu s_adc) (s_r8 reg_a) s_indiy) 0
    ∷ []

abbrev from_10 : List Row
from_10 =
    row (binary (s_alu s_sub) (s_r8 reg_a) (s_r8 reg_a)) 0
    ∷ row (binary (s_alu s_sub) (s_r8 reg_a) (s_r8 reg_b)) 0
    ∷ row (binary (s_alu s_sub) (s_r8 reg_a) s_immed) 1
    ∷ row (binary (s_alu s_sub) (s_r8 reg_a) s_indhl) 0
    ∷ row (binary (s_alu s_sub) (s_r8 reg_a) s_brll) 1
    ∷ row (binary (s_alu s_sub) (s_r8 reg_a) s_indm) 2
    ∷ row (binary (s_alu s_sub) (s_r8 reg_a) s_indix) 0
    ∷ row (binary (s_alu s_sub) (s_r8 reg_a) s_indiy) 0
    ∷ row (binary (s_alu s_sbc) (s_r8 reg_a) (s_r8 reg_a)) 0
    ∷ row (binary (s_alu s_sbc) (s_r8 reg_a) (s_r8 reg_b)) 0
    ∷ row (binary (s_alu s_sbc) (s_r8 reg_a) s_immed) 1
    ∷ row (binary (s_alu s_sbc) (s_r8 reg_a) s_indhl) 0
    ∷ row (binary (s_alu s_sbc) (s_r8 reg_a) s_brll) 1
    ∷ row (binary (s_alu s_sbc) (s_r8 reg_a) s_indm) 2
    ∷ row (binary (s_alu s_sbc) (s_r8 reg_a) s_indix) 0
    ∷ row (binary (s_alu s_sbc) (s_r8 reg_a) s_indiy) 0
    ∷ []

abbrev from_20 : List Row
from_20 =
    row (binary (s_alu s_and) (s_r8 reg_a) (s_r8 reg_a)) 0
    ∷ row (binary (s_alu s_and) (s_r8 reg_a) (s_r8 reg_b)) 0
    ∷ row (binary (s_alu s_and) (s_r8 reg_a) s_immed) 1
    ∷ row (binary (s_alu s_and) (s_r8 reg_a) s_indhl) 0
    ∷ row (binary (s_alu s_and) (s_r8 reg_a) s_brll) 1
    ∷ row (binary (s_alu s_and) (s_r8 reg_a) s_indm) 2
    ∷ row (binary (s_alu s_and) (s_r8 reg_a) s_indix) 0
    ∷ row (binary (s_alu s_and) (s_r8 reg_a) s_indiy) 0
    ∷ row (binary (s_alu s_or) (s_r8 reg_a) (s_r8 reg_a)) 0
    ∷ row (binary (s_alu s_or) (s_r8 reg_a) (s_r8 reg_b)) 0
    ∷ row (binary (s_alu s_or) (s_r8 reg_a) s_immed) 1
    ∷ row (binary (s_alu s_or) (s_r8 reg_a) s_indhl) 0
    ∷ row (binary (s_alu s_or) (s_r8 reg_a) s_brll) 1
    ∷ row (binary (s_alu s_or) (s_r8 reg_a) s_indm) 2
    ∷ row (binary (s_alu s_or) (s_r8 reg_a) s_indix) 0
    ∷ row (binary (s_alu s_or) (s_r8 reg_a) s_indiy) 0
    ∷ []

abbrev from_30 : List Row
from_30 =
    row (binary (s_alu s_cp) (s_r8 reg_a) (s_r8 reg_a)) 0
    ∷ row (binary (s_alu s_cp) (s_r8 reg_a) (s_r8 reg_b)) 0
    ∷ row (binary (s_alu s_cp) (s_r8 reg_a) s_immed) 1
    ∷ row (binary (s_alu s_cp) (s_r8 reg_a) s_indhl) 0
    ∷ row (binary (s_alu s_cp) (s_r8 reg_a) s_brll) 1
    ∷ row (binary (s_alu s_cp) (s_r8 reg_a) s_indm) 2
    ∷ row (binary (s_alu s_cp) (s_r8 reg_a) s_indix) 0
    ∷ row (binary (s_alu s_cp) (s_r8 reg_a) s_indiy) 0
    ∷ row (binary (s_alu s_xor) (s_r8 reg_a) (s_r8 reg_a)) 0
    ∷ row (binary (s_alu s_xor) (s_r8 reg_a) (s_r8 reg_b)) 0
    ∷ row (binary (s_alu s_xor) (s_r8 reg_a) s_immed) 1
    ∷ row (binary (s_alu s_xor) (s_r8 reg_a) s_indhl) 0
    ∷ row (binary (s_alu s_xor) (s_r8 reg_a) s_brll) 1
    ∷ row (binary (s_alu s_xor) (s_r8 reg_a) s_indm) 2
    ∷ row (binary (s_alu s_xor) (s_r8 reg_a) s_indix) 0
    ∷ row (binary (s_alu s_xor) (s_r8 reg_a) s_indiy) 0
    ∷ []

abbrev from_40 : List Row
from_40 =
    row (binary s_ld (s_r8 reg_a) (s_r8 reg_a)) 0
    ∷ row (binary s_ld (s_r8 reg_a) (s_r8 reg_b)) 0
    ∷ row (binary s_ld (s_r8 reg_a) (s_r8 reg_l)) 0
    ∷ row (binary s_ld (s_r8 reg_a) (s_r8 reg_h)) 0
    ∷ row (binary s_ld (s_r8 reg_a) s_brll) 1
    ∷ row (binary s_ld (s_r8 reg_a) s_indhl) 0
    ∷ row (binary s_ld (s_r8 reg_a) s_indix) 0
    ∷ row (binary s_ld (s_r8 reg_a) s_indiy) 0
    ∷ row (binary s_ld (s_r8 reg_b) (s_r8 reg_a)) 0
    ∷ row (binary s_ld (s_r8 reg_b) (s_r8 reg_b)) 0
    ∷ row (binary s_ld (s_r8 reg_b) (s_r8 reg_l)) 0
    ∷ row (binary s_ld (s_r8 reg_b) (s_r8 reg_h)) 0
    ∷ row (binary s_ld (s_r8 reg_b) s_brll) 1
    ∷ row (binary s_ld (s_r8 reg_b) s_indhl) 0
    ∷ row (binary s_ld (s_r8 reg_b) s_indix) 0
    ∷ row (binary s_ld (s_r8 reg_b) s_indiy) 0
    ∷ []

abbrev from_50 : List Row
from_50 =
    row (binary s_ld (s_r8 reg_l) (s_r8 reg_a)) 0
    ∷ row (binary s_ld (s_r8 reg_l) (s_r8 reg_b)) 0
    ∷ row (binary s_ld (s_r8 reg_l) (s_r8 reg_l)) 0
    ∷ row (binary s_ld (s_r8 reg_l) (s_r8 reg_h)) 0
    ∷ row (binary s_ld (s_r8 reg_l) s_brll) 1
    ∷ row (binary s_ld (s_r8 reg_l) s_indhl) 0
    ∷ row (binary s_ld (s_r8 reg_l) s_indix) 0
    ∷ row (binary s_ld (s_r8 reg_l) s_indiy) 0
    ∷ row (binary s_ld (s_r8 reg_h) (s_r8 reg_a)) 0
    ∷ row (binary s_ld (s_r8 reg_h) (s_r8 reg_b)) 0
    ∷ row (binary s_ld (s_r8 reg_h) (s_r8 reg_l)) 0
    ∷ row (binary s_ld (s_r8 reg_h) (s_r8 reg_h)) 0
    ∷ row (binary s_ld (s_r8 reg_h) s_brll) 1
    ∷ row (binary s_ld (s_r8 reg_h) s_indhl) 0
    ∷ row (binary s_ld (s_r8 reg_h) s_indix) 0
    ∷ row (binary s_ld (s_r8 reg_h) s_indiy) 0
    ∷ []

abbrev from_60 : List Row
from_60 =
    row (binary s_ld s_indix (s_r8 reg_a)) 0
    ∷ row (binary s_ld s_indix (s_r8 reg_b)) 0
    ∷ row (binary s_ld s_indix (s_r8 reg_l)) 0
    ∷ row (binary s_ld s_indix (s_r8 reg_h)) 0
    ∷ row (binary s_ld s_indix s_brll) 1
    ∷ row (binary s_ld s_indix s_indhl) 0
    ∷ row (binary s_ld s_indix s_indix) 0
    ∷ row (binary s_ld s_indix s_indiy) 0
    ∷ row (binary s_ld s_indhl (s_r8 reg_a)) 0
    ∷ row (binary s_ld s_indhl (s_r8 reg_b)) 0
    ∷ row (binary s_ld s_indhl (s_r8 reg_l)) 0
    ∷ row (binary s_ld s_indhl (s_r8 reg_h)) 0
    ∷ row (binary s_ld s_indhl s_brll) 1
    ∷ row (binary s_ld s_indhl s_indhl) 0
    ∷ row (binary s_ld s_indhl s_indix) 0
    ∷ row (binary s_ld s_indhl s_indiy) 0
    ∷ []

abbrev from_70 : List Row
from_70 =
    row (binary s_ld s_indiy (s_r8 reg_a)) 0
    ∷ row (binary s_ld s_indiy (s_r8 reg_b)) 0
    ∷ row (binary s_ld s_indiy (s_r8 reg_l)) 0
    ∷ row (binary s_ld s_indiy (s_r8 reg_h)) 0
    ∷ row (binary s_ld s_indiy s_brll) 1
    ∷ row (binary s_ld s_indiy s_indhl) 0
    ∷ row (binary s_ld s_indiy s_indix) 0
    ∷ row (binary s_ld s_indiy s_indiy) 0
    ∷ row (binary s_ld s_brll (s_r8 reg_a)) 1
    ∷ row (binary s_ld s_brll (s_r8 reg_b)) 1
    ∷ row (binary s_ld s_brll (s_r8 reg_l)) 1
    ∷ row (binary s_ld s_brll (s_r8 reg_h)) 1
    ∷ other
    ∷ row (binary s_ld s_brll s_indhl) 1
    ∷ row (binary s_ld s_brll s_indix) 1
    ∷ row (binary s_ld s_brll s_indiy) 1
    ∷ []

abbrev from_80 : List Row
from_80 =
    row (unary s_inc (s_r8 reg_a)) 0
    ∷ row (unary s_inc (s_r8 reg_b)) 0
    ∷ row (unary s_inc (s_r8 reg_l)) 0
    ∷ row (unary s_inc (s_r8 reg_h)) 0
    ∷ row (unary s_inc (s_creg cr_br)) 0
    ∷ row (unary s_inc s_brll) 1
    ∷ row (unary s_inc s_indhl) 0
    ∷ row (unary s_inc (s_r16 sp)) 0
    ∷ row (unary s_dec (s_r8 reg_a)) 0
    ∷ row (unary s_dec (s_r8 reg_b)) 0
    ∷ row (unary s_dec (s_r8 reg_l)) 0
    ∷ row (unary s_dec (s_r8 reg_h)) 0
    ∷ row (unary s_dec (s_creg cr_br)) 0
    ∷ row (unary s_dec s_brll) 1
    ∷ row (unary s_dec s_indhl) 0
    ∷ row (unary s_dec (s_r16 sp)) 0
    ∷ []

abbrev from_90 : List Row
from_90 =
    row (unary s_inc (s_r16 ba)) 0
    ∷ row (unary s_inc (s_r16 hl)) 0
    ∷ row (unary s_inc (s_r16 ix)) 0
    ∷ row (unary s_inc (s_r16 iy)) 0
    ∷ row (binary s_bit (s_r8 reg_a) (s_r8 reg_b)) 0
    ∷ row (binary s_bit s_indhl s_immed) 1
    ∷ row (binary s_bit (s_r8 reg_a) s_immed) 1
    ∷ row (binary s_bit (s_r8 reg_b) s_immed) 1
    ∷ row (unary s_dec (s_r16 ba)) 0
    ∷ row (unary s_dec (s_r16 hl)) 0
    ∷ row (unary s_dec (s_r16 ix)) 0
    ∷ row (unary s_dec (s_r16 iy)) 0
    ∷ row (binary (s_alu s_and) (s_creg cr_sc) s_immed) 1
    ∷ row (binary (s_alu s_or) (s_creg cr_sc) s_immed) 1
    ∷ row (binary (s_alu s_xor) (s_creg cr_sc) s_immed) 1
    ∷ row (binary s_ld (s_creg cr_sc) s_immed) 1
    ∷ []

abbrev from_a0 : List Row
from_a0 =
    row (unary s_push (s_r16 ba)) 0
    ∷ row (unary s_push (s_r16 hl)) 0
    ∷ row (unary s_push (s_r16 ix)) 0
    ∷ row (unary s_push (s_r16 iy)) 0
    ∷ row (unary s_push (s_creg cr_br)) 0
    ∷ row (unary s_push (s_creg cr_ep)) 0
    ∷ row (unary s_push (s_creg cr_ip)) 0
    ∷ row (unary s_push (s_creg cr_sc)) 0
    ∷ row (unary s_pop (s_r16 ba)) 0
    ∷ row (unary s_pop (s_r16 hl)) 0
    ∷ row (unary s_pop (s_r16 ix)) 0
    ∷ row (unary s_pop (s_r16 iy)) 0
    ∷ row (unary s_pop (s_creg cr_br)) 0
    ∷ row (unary s_pop (s_creg cr_ep)) 0
    ∷ row (unary s_pop (s_creg cr_ip)) 0
    ∷ row (unary s_pop (s_creg cr_sc)) 0
    ∷ []

abbrev from_b0 : List Row
from_b0 =
    row (binary s_ld (s_r8 reg_a) s_immed) 1
    ∷ row (binary s_ld (s_r8 reg_b) s_immed) 1
    ∷ row (binary s_ld (s_r8 reg_l) s_immed) 1
    ∷ row (binary s_ld (s_r8 reg_h) s_immed) 1
    ∷ row (binary s_ld (s_creg cr_br) s_immed) 1
    ∷ row (binary s_ld s_indhl s_immed) 1
    ∷ row (binary s_ld s_indix s_immed) 1
    ∷ row (binary s_ld s_indiy s_immed) 1
    ∷ row (binary s_ld (s_r16 ba) s_indm) 2
    ∷ row (binary s_ld (s_r16 hl) s_indm) 2
    ∷ row (binary s_ld (s_r16 ix) s_indm) 2
    ∷ row (binary s_ld (s_r16 iy) s_indm) 2
    ∷ row (binary s_ld s_indm (s_r16 ba)) 2
    ∷ row (binary s_ld s_indm (s_r16 hl)) 2
    ∷ row (binary s_ld s_indm (s_r16 ix)) 2
    ∷ row (binary s_ld s_indm (s_r16 iy)) 2
    ∷ []

abbrev from_c0 : List Row
from_c0 =
    row (binary (s_alu s_add) (s_r16 ba) s_immed) 2
    ∷ row (binary (s_alu s_add) (s_r16 hl) s_immed) 2
    ∷ row (binary (s_alu s_add) (s_r16 ix) s_immed) 2
    ∷ row (binary (s_alu s_add) (s_r16 iy) s_immed) 2
    ∷ row (binary s_ld (s_r16 ba) s_immed) 2
    ∷ row (binary s_ld (s_r16 hl) s_immed) 2
    ∷ row (binary s_ld (s_r16 ix) s_immed) 2
    ∷ row (binary s_ld (s_r16 iy) s_immed) 2
    ∷ row (binary s_ex (s_r16 ba) (s_r16 hl)) 0
    ∷ row (binary s_ex (s_r16 ba) (s_r16 ix)) 0
    ∷ row (binary s_ex (s_r16 ba) (s_r16 iy)) 0
    ∷ row (binary s_ex (s_r16 ba) (s_r16 sp)) 0
    ∷ row (binary s_ex (s_r8 reg_a) (s_r8 reg_b)) 0
    ∷ row (binary s_ex (s_r8 reg_a) s_indhl) 0
    ∷ other
    ∷ other
    ∷ []

abbrev from_d0 : List Row
from_d0 =
    row (binary (s_alu s_sub) (s_r16 ba) s_immed) 2
    ∷ row (binary (s_alu s_sub) (s_r16 hl) s_immed) 2
    ∷ row (binary (s_alu s_sub) (s_r16 ix) s_immed) 2
    ∷ row (binary (s_alu s_sub) (s_r16 iy) s_immed) 2
    ∷ row (binary (s_alu s_cp) (s_r16 ba) s_immed) 2
    ∷ row (binary (s_alu s_cp) (s_r16 hl) s_immed) 2
    ∷ row (binary (s_alu s_cp) (s_r16 ix) s_immed) 2
    ∷ row (binary (s_alu s_cp) (s_r16 iy) s_immed) 2
    ∷ row (binary (s_alu s_and) s_brll s_immed) 2
    ∷ row (binary (s_alu s_or) s_brll s_immed) 2
    ∷ row (binary (s_alu s_xor) s_brll s_immed) 2
    ∷ row (binary (s_alu s_cp) s_brll s_immed) 2
    ∷ row (binary s_bit s_brll s_immed) 2
    ∷ row (binary s_ld s_brll s_immed) 2
    ∷ row (inherent pack) 0
    ∷ row (inherent upck) 0
    ∷ []

abbrev from_f0 : List Row
from_f0 =
    other
    ∷ other
    ∷ other
    ∷ row (unary s_jp s_user) 2
    ∷ row (unary s_jp (s_r16 hl)) 0
    ∷ other
    ∷ row (unary s_swap (s_r8 reg_a)) 0
    ∷ row (unary s_swap s_indhl) 0
    ∷ row (inherent ret) 0
    ∷ row (inherent rete) 0
    ∷ row (inherent rets) 0
    ∷ row (unary s_call s_indm) 2
    ∷ row (unary s_int s_indm) 1
    ∷ row (unary s_jp s_indm) 1
    ∷ other
    ∷ row (inherent nop) 0
    ∷ []

abbrev blank : List Row
blank =
    other ∷ other ∷ other ∷ other ∷ other ∷ other ∷ other ∷ other ∷ other ∷ other ∷ other ∷ other
    ∷ other ∷ other ∷ other ∷ other ∷ []

abbrev pub main_page : List (List Row)
main_page =
    from_00 ∷ from_10 ∷ from_20 ∷ from_30 ∷ from_40 ∷ from_50 ∷ from_60 ∷ from_70 ∷ from_80
    ∷ from_90 ∷ from_a0 ∷ from_b0 ∷ from_c0 ∷ from_d0 ∷ blank ∷ from_f0 ∷ []
