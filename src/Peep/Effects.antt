-- ===== src/Peep/Effects.antt =====
-- What the instructions of the S1C88 do to its registers (docs/s1c88/instruction-set.md), to compare
-- with what src/s1c88/peep.c says of the lines. Calls and returns are left to the calling convention.
pub mod Sweep
pub mod Bytes
pub mod Status
use sdcc.Common.{Bool, true, false, not, ◌&&◌, ◌||◌, List, [], ◌∷◌, Chars, chars, if◌then◌else◌}
use sdcc.As88.Operand.{
  Reg8, reg_a, reg_b, reg_l, reg_h, Reg16, ba, hl, ix, iy, sp, Operand, s_indhl, s_indix, s_indiy,
  s_idxix, s_idxiy, s_idxsp, s_r8, s_r16, s_pall, CReg, cr_sc, s_creg,
}
use sdcc.As88.Alu.{AluOp, s_sub, s_cp, s_xor, s_and, s_or, s_adc, s_sbc}
use sdcc.As88.Machine.{
  Inherent, pack, upck, mlt, div, sep, s_push, s_pop, s_jp, s_int, s_call, s_ld, s_ex, s_bit, s_alu,
  Instr, inherent, unary, binary, rl, rr, neg, cpl, s_rot, s_inc, s_dec, Rotation, ret,
}

pub data Register : Type 0 where
  byte_a byte_b byte_l byte_h index_x index_y stack_p : Register

abbrev pub register_name : Register → Chars
register_name byte_a = chars "a"
register_name byte_b = chars "b"
register_name byte_l = chars "l"
register_name byte_h = chars "h"
register_name index_x = chars "ix"
register_name index_y = chars "iy"
register_name stack_p = chars "sp"

abbrev pub all_registers : List Register
all_registers = byte_a ∷ byte_b ∷ byte_l ∷ byte_h ∷ index_x ∷ index_y ∷ stack_p ∷ []

abbrev in_reg8 : Reg8 → Register → Bool
in_reg8 reg_a byte_a = true
in_reg8 reg_b byte_b = true
in_reg8 reg_l byte_l = true
in_reg8 reg_h byte_h = true
in_reg8 _ _ = false

abbrev in_reg16 : Reg16 → Register → Bool
in_reg16 ba byte_a = true
in_reg16 ba byte_b = true
in_reg16 hl byte_l = true
in_reg16 hl byte_h = true
in_reg16 ix index_x = true
in_reg16 iy index_y = true
in_reg16 sp stack_p = true
in_reg16 _ _ = false

-- The registers that `push all` and `pop all` name.
abbrev in_all : Register → Bool
in_all stack_p = false
in_all _ = true

-- The register that an operand is, and those in its address.
abbrev is_held_in : Operand → Register → Bool
is_held_in (s_r8 x) r = in_reg8 x r
is_held_in (s_r16 x) r = in_reg16 x r
is_held_in (s_pall x) r = in_all r
is_held_in _ r = false

abbrev addressed_by : Operand → Register → Bool
addressed_by s_indhl r = in_reg16 hl r
addressed_by s_indix r = in_reg16 ix r
addressed_by s_indiy r = in_reg16 iy r
addressed_by s_idxix r = in_reg16 ix r
addressed_by s_idxiy r = in_reg16 iy r
addressed_by s_idxsp r = in_reg16 sp r
addressed_by _ r = false

abbrev value_reads : Operand → Register → Bool
value_reads o r = is_held_in o r || addressed_by o r

-- `sub a,a` and `xor a,a` give 0 whatever A holds.
abbrev clears : AluOp → Operand → Operand → Bool
clears s_sub (s_r8 reg_a) (s_r8 reg_a) = true
clears s_xor (s_r8 reg_a) (s_r8 reg_a) = true
clears _ _ _ = false

abbrev inherent_reads : Inherent → Register → Bool
inherent_reads pack r = in_reg16 ba r
inherent_reads upck r = in_reg8 reg_a r
inherent_reads mlt r = in_reg8 reg_a r || in_reg8 reg_l r
inherent_reads div r = in_reg8 reg_a r || in_reg16 hl r
inherent_reads sep r = in_reg8 reg_a r
inherent_reads _ r = false

abbrev pub instr_reads : Instr → Register → Bool
instr_reads (inherent o) r = inherent_reads o r
instr_reads (unary s_push d) r = value_reads d r || in_reg16 sp r
instr_reads (unary s_pop d) r = in_reg16 sp r
instr_reads (unary s_call d) r = false
instr_reads (unary s_int d) r = false
instr_reads (unary k d) r = value_reads d r
instr_reads (binary s_ld d s) r = addressed_by d r || value_reads s r
instr_reads (binary (s_alu o) d s) r =
    if clears o d s then false else value_reads d r || value_reads s r
instr_reads (binary k d s) r = value_reads d r || value_reads s r

-- `ret` and `call`, whose effects are those of the calling convention.
abbrev pub by_convention : Instr → Bool
by_convention (inherent ret) = true
by_convention (unary s_call d) = true
by_convention i = false

abbrev inherent_writes : Inherent → Register → Bool
inherent_writes pack r = in_reg8 reg_a r
inherent_writes upck r = in_reg16 ba r
inherent_writes mlt r = in_reg16 hl r
inherent_writes div r = in_reg16 hl r
inherent_writes sep r = in_reg8 reg_b r
inherent_writes _ r = false

abbrev pub instr_writes : Instr → Register → Bool
instr_writes (inherent o) r = inherent_writes o r
instr_writes (unary s_push d) r = in_reg16 sp r
instr_writes (unary s_pop d) r = is_held_in d r || in_reg16 sp r
instr_writes (unary s_jp d) r = false
instr_writes (unary s_call d) r = false
instr_writes (unary s_int d) r = false
instr_writes (unary k d) r = is_held_in d r
instr_writes (binary s_ex d s) r = is_held_in d r || is_held_in s r
instr_writes (binary s_bit d s) r = false
instr_writes (binary (s_alu s_cp) d s) r = false
instr_writes (binary k d s) r = is_held_in d r

-- The flags of the conditions.
pub data Flag : Type 0 where
  zero_f carry_f negative_f overflow_f : Flag

abbrev pub flag_name : Flag → Chars
flag_name zero_f = chars "zf"
flag_name carry_f = chars "cf"
flag_name negative_f = chars "nf"
flag_name overflow_f = chars "vf"

abbrev pub all_flags : List Flag
all_flags = zero_f ∷ carry_f ∷ negative_f ∷ overflow_f ∷ []

abbrev is_carry : Flag → Bool
is_carry carry_f = true
is_carry _ = false

abbrev is_overflow : Flag → Bool
is_overflow overflow_f = true
is_overflow _ = false

abbrev is_sc : Operand → Bool
is_sc (s_creg cr_sc) = true
is_sc _ = false

-- The logic instructions and the bit test leave C and V alone, unless they work on SC.
abbrev alu_writes_flag : AluOp → Operand → Flag → Bool
alu_writes_flag s_and d f = is_sc d || (not (is_carry f) && not (is_overflow f))
alu_writes_flag s_or d f = is_sc d || (not (is_carry f) && not (is_overflow f))
alu_writes_flag s_xor d f = is_sc d || (not (is_carry f) && not (is_overflow f))
alu_writes_flag _ d f = true

abbrev rot_writes_flag : Rotation → Flag → Bool
rot_writes_flag neg f = true
rot_writes_flag cpl f = not (is_carry f) && not (is_overflow f)
rot_writes_flag _ f = not (is_overflow f)

abbrev inherent_writes_flag : Inherent → Flag → Bool
inherent_writes_flag mlt f = true
inherent_writes_flag div f = true
inherent_writes_flag _ f = false

abbrev pub instr_writes_flag : Instr → Flag → Bool
instr_writes_flag (inherent o) f = inherent_writes_flag o f
instr_writes_flag (unary s_inc d) f = not (is_carry f)
instr_writes_flag (unary s_dec d) f = not (is_carry f)
instr_writes_flag (unary s_pop d) f = is_sc d
instr_writes_flag (unary (s_rot o) d) f = rot_writes_flag o f
instr_writes_flag (unary k d) f = false
instr_writes_flag (binary s_ld d s) f = is_sc d
instr_writes_flag (binary s_ex d s) f = false
instr_writes_flag (binary s_bit d s) f = not (is_carry f) && not (is_overflow f)
instr_writes_flag (binary (s_alu o) d s) f = alu_writes_flag o d f

abbrev pub instr_reads_flag : Instr → Flag → Bool
instr_reads_flag (unary s_push d) f = is_sc d
instr_reads_flag (unary (s_rot rl) d) f = is_carry f
instr_reads_flag (unary (s_rot rr) d) f = is_carry f
instr_reads_flag (binary s_ld d s) f = is_sc s
instr_reads_flag (binary (s_alu s_adc) d s) f = is_carry f
instr_reads_flag (binary (s_alu s_sbc) d s) f = is_carry f
instr_reads_flag (binary (s_alu s_and) d s) f = is_sc d
instr_reads_flag (binary (s_alu s_or) d s) f = is_sc d
instr_reads_flag (binary (s_alu s_xor) d s) f = is_sc d
instr_reads_flag i f = false
