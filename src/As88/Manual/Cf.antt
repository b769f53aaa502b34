-- ===== src/As88/Manual/Cf.antt =====
-- The S1C88's operation code map: the codes behind CF, in rows of sixteen. The instructions that name
-- a branch target or a register the assembler does not know are left open.
use sdcc.Common.{List, [], ◌∷◌}
use sdcc.As88.Operand.{
  reg_a, reg_b, reg_l, reg_h, ba, hl, ix, iy, sp, all_regs, ale, s_immed, s_indhl, s_indix, s_indiy,
  s_indm, s_idxsp, s_r8, s_r16, s_pall,
}
use sdcc.As88.Alu.{s_add, s_adc, s_sub, s_sbc, s_cp}
use sdcc.As88.Machine.{s_push, s_pop, s_ld, s_alu, unary, binary}
use sdcc.As88.Manual.{Row, row, other}

abbrev from_00 : List Row
from_00 =
    row (binary (s_alu s_add) (s_r16 ba) (s_r16 ba)) 0
    ∷ row (binary (s_alu s_add) (s_r16 ba) (s_r16 hl)) 0
    ∷ row (binary (s_alu s_add) (s_r16 ba) (s_r16 ix)) 0
    ∷ row (binary (s_alu s_add) (s_r16 ba) (s_r16 iy)) 0
    ∷ row (binary (s_alu s_adc) (s_r16 ba) (s_r16 ba)) 0
    ∷ row (binary (s_alu s_adc) (s_r16 ba) (s_r16 hl)) 0
    ∷ row (binary (s_alu s_adc) (s_r16 ba) (s_r16 ix)) 0
    ∷ row (binary (s_alu s_adc) (s_r16 ba) (s_r16 iy)) 0
    ∷ row (binary (s_alu s_sub) (s_r16 ba) (s_r16 ba)) 0
    ∷ row (binary (s_alu s_sub) (s_r16 ba) (s_r16 hl)) 0
    ∷ row (binary (s_alu s_sub) (s_r16 ba) (s_r16 ix)) 0
    ∷ row (binary (s_alu s_sub) (s_r16 ba) (s_r16 iy)) 0
    ∷ row (binary (s_alu s_sbc) (s_r16 ba) (s_r16 ba)) 0
    ∷ row (binary (s_alu s_sbc) (s_r16 ba) (s_r16 hl)) 0
    ∷ row (binary (s_alu s_sbc) (s_r16 ba) (s_r16 ix)) 0
    ∷ row (binary (s_alu s_sbc) (s_r16 ba) (s_r16 iy)) 0
    ∷ []

abbrev from_10 : List Row
from_10 =
    other
    ∷ other
    ∷ other
    ∷ other
    ∷ other
    ∷ other
    ∷ other
    ∷ other
    ∷ row (binary (s_alu s_cp) (s_r16 ba) (s_r16 ba)) 0
    ∷ row (binary (s_alu s_cp) (s_r16 ba) (s_r16 hl)) 0
    ∷ row (binary (s_alu s_cp) (s_r16 ba) (s_r16 ix)) 0
    ∷ row (binary (s_alu s_cp) (s_r16 ba) (s_r16 iy)) 0
    ∷ other
    ∷ other
    ∷ other
    ∷ other
    ∷ []

abbrev from_20 : List Row
from_20 =
    row (binary (s_alu s_add) (s_r16 hl) (s_r16 ba)) 0
    ∷ row (binary (s_alu s_add) (s_r16 hl) (s_r16 hl)) 0
    ∷ row (binary (s_alu s_add) (s_r16 hl) (s_r16 ix)) 0
    ∷ row (binary (s_alu s_add) (s_r16 hl) (s_r16 iy)) 0
    ∷ row (binary (s_alu s_adc) (s_r16 hl) (s_r16 ba)) 0
    ∷ row (binary (s_alu s_adc) (s_r16 hl) (s_r16 hl)) 0
    ∷ row (binary (s_alu s_adc) (s_r16 hl) (s_r16 ix)) 0
    ∷ row (binary (s_alu s_adc) (s_r16 hl) (s_r16 iy)) 0
    ∷ row (binary (s_alu s_sub) (s_r16 hl) (s_r16 ba)) 0
    ∷ row (binary (s_alu s_sub) (s_r16 hl) (s_r16 hl)) 0
    ∷ row (binary (s_alu s_sub) (s_r16 hl) (s_r16 ix)) 0
    ∷ row (binary (s_alu s_sub) (s_r16 hl) (s_r16 iy)) 0
    ∷ row (binary (s_alu s_sbc) (s_r16 hl) (s_r16 ba)) 0
    ∷ row (binary (s_alu s_sbc) (s_r16 hl) (s_r16 hl)) 0
    ∷ row (binary (s_alu s_sbc) (s_r16 hl) (s_r16 ix)) 0
    ∷ row (binary (s_alu s_sbc) (s_r16 hl) (s_r16 iy)) 0
    ∷ []

abbrev from_30 : List Row
from_30 =
    other
    ∷ other
    ∷ other
    ∷ other
    ∷ other
    ∷ other
    ∷ other
    ∷ other
    ∷ row (binary (s_alu s_cp) (s_r16 hl) (s_r16 ba)) 0
    ∷ row (binary (s_alu s_cp) (s_r16 hl) (s_r16 hl)) 0
    ∷ row (binary (s_alu s_cp) (s_r16 hl) (s_r16 ix)) 0
    ∷ row (binary (s_alu s_cp) (s_r16 hl) (s_r16 iy)) 0
    ∷ other
    ∷ other
    ∷ other
    ∷ other
    ∷ []

abbrev from_40 : List Row
from_40 =
    row (binary (s_alu s_add) (s_r16 ix) (s_r16 ba)) 0
    ∷ row (binary (s_alu s_add) (s_r16 ix) (s_r16 hl)) 0
    ∷ row (binary (s_alu s_add) (s_r16 iy) (s_r16 ba)) 0
    ∷ row (binary (s_alu s_add) (s_r16 iy) (s_r16 hl)) 0
    ∷ row (binary (s_alu s_add) (s_r16 sp) (s_r16 ba)) 0
    ∷ row (binary (s_alu s_add) (s_r16 sp) (s_r16 hl)) 0
    ∷ other
    ∷ other
    ∷ row (binary (s_alu s_sub) (s_r16 ix) (s_r16 ba)) 0
    ∷ row (binary (s_alu s_sub) (s_r16 ix) (s_r16 hl)) 0
    ∷ row (binary (s_alu s_sub) (s_r16 iy) (s_r16 ba)) 0
    ∷ row (binary (s_alu s_sub) (s_r16 iy) (s_r16 hl)) 0
    ∷ row (binary (s_alu s_sub) (s_r16 sp) (s_r16 ba)) 0
    ∷ row (binary (s_alu s_sub) (s_r16 sp) (s_r16 hl)) 0
    ∷ other
    ∷ other
    ∷ []

abbrev from_50 : List Row
from_50 =
    other
    ∷ other
    ∷ other
    ∷ other
    ∷ other
    ∷ other
    ∷ other
    ∷ other
    ∷ other
    ∷ other
    ∷ other
    ∷ other
    ∷ row (binary (s_alu s_cp) (s_r16 sp) (s_r16 ba)) 0
    ∷ row (binary (s_alu s_cp) (s_r16 sp) (s_r16 hl)) 0
    ∷ other
    ∷ other
    ∷ []

abbrev from_60 : List Row
from_60 =
    row (binary (s_alu s_adc) (s_r16 ba) s_immed) 2
    ∷ row (binary (s_alu s_adc) (s_r16 hl) s_immed) 2
    ∷ row (binary (s_alu s_sbc) (s_r16 ba) s_immed) 2
    ∷ row (binary (s_alu s_sbc) (s_r16 hl) s_immed) 2
    ∷ other
    ∷ other
    ∷ other
    ∷ other
    ∷ row (binary (s_alu s_add) (s_r16 sp) s_immed) 2
    ∷ other
    ∷ row (binary (s_alu s_sub) (s_r16 sp) s_immed) 2
    ∷ other
    ∷ row (binary (s_alu s_cp) (s_r16 sp) s_immed) 2
    ∷ other
    ∷ row (binary s_ld (s_r16 sp) s_immed) 2
    ∷ other
    ∷ []

abbrev from_70 : List Row
from_70 =
    row (binary s_ld (s_r16 ba) s_idxsp) 1
    ∷ row (binary s_ld (s_r16 hl) s_idxsp) 1
    ∷ row (binary s_ld (s_r16 ix) s_idxsp) 1
    ∷ row (binary s_ld (s_r16 iy) s_idxsp) 1
    ∷ row (binary s_ld s_idxsp (s_r16 ba)) 1
    ∷ row (binary s_ld s_idxsp (s_r16 hl)) 1
    ∷ row (binary s_ld s_idxsp (s_r16 ix)) 1
    ∷ row (binary s_ld s_idxsp (s_r16 iy)) 1
    ∷ row (binary s_ld (s_r16 sp) s_indm) 2
    ∷ other
    ∷ other
    ∷ other
    ∷ row (binary s_ld s_indm (s_r16 sp)) 2
    ∷ other
    ∷ other
    ∷ other
    ∷ []

abbrev from_b0 : List Row
from_b0 =
    row (unary s_push (s_r8 reg_a)) 0
    ∷ row (unary s_push (s_r8 reg_b)) 0
    ∷ row (unary s_push (s_r8 reg_l)) 0
    ∷ row (unary s_push (s_r8 reg_h)) 0
    ∷ row (unary s_pop (s_r8 reg_a)) 0
    ∷ row (unary s_pop (s_r8 reg_b)) 0
    ∷ row (unary s_pop (s_r8 reg_l)) 0
    ∷ row (unary s_pop (s_r8 reg_h)) 0
    ∷ row (unary s_push (s_pall all_regs)) 0
    ∷ row (unary s_push (s_pall ale)) 0
    ∷ other
    ∷ other
    ∷ row (unary s_pop (s_pall all_regs)) 0
    ∷ row (unary s_pop (s_pall ale)) 0
    ∷ other
    ∷ other
    ∷ []

abbrev from_c0 : List Row
from_c0 =
    row (binary s_ld (s_r16 ba) s_indhl) 0
    ∷ row (binary s_ld (s_r16 hl) s_indhl) 0
    ∷ row (binary s_ld (s_r16 ix) s_indhl) 0
    ∷ row (binary s_ld (s_r16 iy) s_indhl) 0
    ∷ row (binary s_ld s_indhl (s_r16 ba)) 0
    ∷ row (binary s_ld s_indhl (s_r16 hl)) 0
    ∷ row (binary s_ld s_indhl (s_r16 ix)) 0
    ∷ row (binary s_ld s_indhl (s_r16 iy)) 0
    ∷ other
    ∷ other
    ∷ other
    ∷ other
    ∷ other
    ∷ other
    ∷ other
    ∷ other
    ∷ []

abbrev from_d0 : List Row
from_d0 =
    row (binary s_ld (s_r16 ba) s_indix) 0
    ∷ row (binary s_ld (s_r16 hl) s_indix) 0
    ∷ row (binary s_ld (s_r16 ix) s_indix) 0
    ∷ row (binary s_ld (s_r16 iy) s_indix) 0
    ∷ row (binary s_ld s_indix (s_r16 ba)) 0
    ∷ row (binary s_ld s_indix (s_r16 hl)) 0
    ∷ row (binary s_ld s_indix (s_r16 ix)) 0
    ∷ row (binary s_ld s_indix (s_r16 iy)) 0
    ∷ row (binary s_ld (s_r16 ba) s_indiy) 0
    ∷ row (binary s_ld (s_r16 hl) s_indiy) 0
    ∷ row (binary s_ld (s_r16 ix) s_indiy) 0
    ∷ row (binary s_ld (s_r16 iy) s_indiy) 0
    ∷ row (binary s_ld s_indiy (s_r16 ba)) 0
    ∷ row (binary s_ld s_indiy (s_r16 hl)) 0
    ∷ row (binary s_ld s_indiy (s_r16 ix)) 0
    ∷ row (binary s_ld s_indiy (s_r16 iy)) 0
    ∷ []

abbrev from_e0 : List Row
from_e0 =
    row (binary s_ld (s_r16 ba) (s_r16 ba)) 0
    ∷ row (binary s_ld (s_r16 ba) (s_r16 hl)) 0
    ∷ row (binary s_ld (s_r16 ba) (s_r16 ix)) 0
    ∷ row (binary s_ld (s_r16 ba) (s_r16 iy)) 0
    ∷ row (binary s_ld (s_r16 hl) (s_r16 ba)) 0
    ∷ row (binary s_ld (s_r16 hl) (s_r16 hl)) 0
    ∷ row (binary s_ld (s_r16 hl) (s_r16 ix)) 0
    ∷ row (binary s_ld (s_r16 hl) (s_r16 iy)) 0
    ∷ row (binary s_ld (s_r16 ix) (s_r16 ba)) 0
    ∷ row (binary s_ld (s_r16 ix) (s_r16 hl)) 0
    ∷ row (binary s_ld (s_r16 ix) (s_r16 ix)) 0
    ∷ row (binary s_ld (s_r16 ix) (s_r16 iy)) 0
    ∷ row (binary s_ld (s_r16 iy) (s_r16 ba)) 0
    ∷ row (binary s_ld (s_r16 iy) (s_r16 hl)) 0
    ∷ row (binary s_ld (s_r16 iy) (s_r16 ix)) 0
    ∷ row (binary s_ld (s_r16 iy) (s_r16 iy)) 0
    ∷ []

abbrev from_f0 : List Row
from_f0 =
    row (binary s_ld (s_r16 sp) (s_r16 ba)) 0
    ∷ row (binary s_ld (s_r16 sp) (s_r16 hl)) 0
    ∷ row (binary s_ld (s_r16 sp) (s_r16 ix)) 0
    ∷ row (binary s_ld (s_r16 sp) (s_r16 iy)) 0
    ∷ row (binary s_ld (s_r16 hl) (s_r16 sp)) 0
    ∷ other
    ∷ other
    ∷ other
    ∷ row (binary s_ld (s_r16 ba) (s_r16 sp)) 0
    ∷ other
    ∷ row (binary s_ld (s_r16 ix) (s_r16 sp)) 0
    ∷ other
    ∷ other
    ∷ other
    ∷ row (binary s_ld (s_r16 iy) (s_r16 sp)) 0
    ∷ other
    ∷ []

abbrev blank : List Row
blank =
    other ∷ other ∷ other ∷ other ∷ other ∷ other ∷ other ∷ other ∷ other ∷ other ∷ other ∷ other
    ∷ other ∷ other ∷ other ∷ other ∷ []

abbrev pub cf_page : List (List Row)
cf_page =
    from_00 ∷ from_10 ∷ from_20 ∷ from_30 ∷ from_40 ∷ from_50 ∷ from_60 ∷ from_70 ∷ blank ∷ blank
    ∷ blank ∷ from_b0 ∷ from_c0 ∷ from_d0 ∷ from_e0 ∷ from_f0 ∷ []
