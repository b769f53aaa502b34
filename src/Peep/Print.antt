-- ===== src/Peep/Print.antt =====
-- How the statements that sdas/as88 reads are written, for the lines that src/s1c88/peep.c sees.
use sdcc.Common.{Bool, true, false, [], ◌∷◌, ◌++◌, Chars, chars}
use sdcc.As88.Operand.{
  Reg8, reg_a, reg_b, reg_l, reg_h, Reg16, ba, hl, ix, iy, sp, CReg, cr_br, cr_sc, cr_nb, cr_ep,
  cr_xp, cr_yp, cr_ip, all_regs, ale, Operand, s_immed, s_indhl, s_indix, s_indiy, s_idxix, s_idxiy,
  s_indm, s_idxsp, s_brll, s_user, s_r8, s_r16, s_creg, s_pall,
}
use sdcc.As88.Alu.{AluOp, s_add, s_adc, s_sub, s_sbc, s_and, s_or, s_cp, s_xor}
use sdcc.As88.Machine.{
  Inherent, ret, rete, rets, pack, upck, nop, mlt, div, sep, halt, slp, Rotation, sla, sll, sra,
  srl, rl, rlc, rr, rrc, cpl, neg, Unary, s_inc, s_dec, s_push, s_pop, s_jp, s_int, s_call, s_swap,
  s_rot, Binary, s_ld, s_ex, s_bit, s_alu, Instr, inherent, unary, binary,
}
use sdcc.As88.Branch.{
  Cc, cc_c, cc_nc, cc_z, cc_nz, SignedCc, cc_lt, cc_le, cc_gt, cc_ge, cc_v, cc_nv, cc_p, cc_m,
  cc_f0, cc_f1, cc_f2, cc_f3, cc_nf0, cc_nf1, cc_nf2, cc_nf3, Cond, always, basic, signed_cc,
}

abbrev print_reg8 : Reg8 → Chars
print_reg8 reg_a = chars "a"
print_reg8 reg_b = chars "b"
print_reg8 reg_l = chars "l"
print_reg8 reg_h = chars "h"

abbrev print_reg16 : Reg16 → Chars
print_reg16 ba = chars "ba"
print_reg16 hl = chars "hl"
print_reg16 ix = chars "ix"
print_reg16 iy = chars "iy"
print_reg16 sp = chars "sp"

abbrev print_creg : CReg → Chars
print_creg cr_br = chars "br"
print_creg cr_sc = chars "sc"
print_creg cr_nb = chars "nb"
print_creg cr_ep = chars "ep"
print_creg cr_xp = chars "xp"
print_creg cr_yp = chars "yp"
print_creg cr_ip = chars "ip"

-- How the expression of an operand is written: as a number, in three ways, or as a symbol of C.
pub data Spelling : Type 0 where
  small zeros ones symbolic : Spelling

abbrev pub is_symbolic : Spelling → Bool
is_symbolic symbolic = true
is_symbolic _ = false

abbrev print_value : Spelling → Chars
print_value small = chars "0x12"
print_value zeros = chars "0x00"
print_value ones = chars "0xff"
print_value symbolic = chars "_x"

abbrev pub print_offset : Spelling → Chars
print_offset small = chars "4"
print_offset zeros = chars "0"
print_offset ones = chars "-1"
print_offset symbolic = chars "_off"

abbrev print_address : Spelling → Chars
print_address small = chars "0x2100"
print_address zeros = chars "0x0000"
print_address ones = chars "0xffff"
print_address symbolic = chars "_x"

abbrev pub print_operand : Spelling → Operand → Chars
print_operand w s_immed = b'#' ∷ print_value w
print_operand w s_indhl = chars "(hl)"
print_operand w s_indix = chars "(ix)"
print_operand w s_indiy = chars "(iy)"
print_operand w s_idxix = print_offset w ++ chars " (ix)"
print_operand w s_idxiy = print_offset w ++ chars " (iy)"
print_operand w s_indm = chars "(" ++ (print_address w ++ chars ")")
print_operand w s_idxsp = print_offset w ++ chars " (sp)"
print_operand w s_brll = chars "(br:" ++ (print_offset w ++ chars ")")
print_operand w s_user = print_address w
print_operand w (s_r8 r) = print_reg8 r
print_operand w (s_r16 r) = print_reg16 r
print_operand w (s_creg c) = print_creg c
print_operand w (s_pall all_regs) = chars "all"
print_operand w (s_pall ale) = chars "ale"

abbrev inherent_name : Inherent → Chars
inherent_name ret = chars "ret"
inherent_name rete = chars "rete"
inherent_name rets = chars "rets"
inherent_name pack = chars "pack"
inherent_name upck = chars "upck"
inherent_name nop = chars "nop"
inherent_name mlt = chars "mlt"
inherent_name div = chars "div"
inherent_name sep = chars "sep"
inherent_name halt = chars "halt"
inherent_name slp = chars "slp"

abbrev rotation_name : Rotation → Chars
rotation_name sla = chars "sla"
rotation_name sll = chars "sll"
rotation_name sra = chars "sra"
rotation_name srl = chars "srl"
rotation_name rl = chars "rl"
rotation_name rlc = chars "rlc"
rotation_name rr = chars "rr"
rotation_name rrc = chars "rrc"
rotation_name cpl = chars "cpl"
rotation_name neg = chars "neg"

abbrev unary_name : Unary → Chars
unary_name s_inc = chars "inc"
unary_name s_dec = chars "dec"
unary_name s_push = chars "push"
unary_name s_pop = chars "pop"
unary_name s_jp = chars "jp"
unary_name s_int = chars "int"
unary_name s_call = chars "call"
unary_name s_swap = chars "swap"
unary_name (s_rot o) = rotation_name o

abbrev alu_name : AluOp → Chars
alu_name s_add = chars "add"
alu_name s_adc = chars "adc"
alu_name s_sub = chars "sub"
alu_name s_sbc = chars "sbc"
alu_name s_and = chars "and"
alu_name s_or = chars "or"
alu_name s_cp = chars "cp"
alu_name s_xor = chars "xor"

abbrev binary_name : Binary → Chars
binary_name s_ld = chars "ld"
binary_name s_ex = chars "ex"
binary_name s_bit = chars "bit"
binary_name (s_alu o) = alu_name o

abbrev pub print_instr : Spelling → Instr → Chars
print_instr w (inherent o) = inherent_name o
print_instr w (unary k d) = unary_name k ++ (9 ∷ print_operand w d)
print_instr w (binary k d s) =
    binary_name k ++ (9 ∷ (print_operand w d ++ (chars ", " ++ print_operand w s)))

abbrev basic_name : Cc → Chars
basic_name cc_c = chars "c"
basic_name cc_nc = chars "nc"
basic_name cc_z = chars "z"
basic_name cc_nz = chars "nz"

abbrev signed_name : SignedCc → Chars
signed_name cc_lt = chars "lt"
signed_name cc_le = chars "le"
signed_name cc_gt = chars "gt"
signed_name cc_ge = chars "ge"
signed_name cc_v = chars "v"
signed_name cc_nv = chars "nv"
signed_name cc_p = chars "p"
signed_name cc_m = chars "m"
signed_name cc_f0 = chars "f0"
signed_name cc_f1 = chars "f1"
signed_name cc_f2 = chars "f2"
signed_name cc_f3 = chars "f3"
signed_name cc_nf0 = chars "nf0"
signed_name cc_nf1 = chars "nf1"
signed_name cc_nf2 = chars "nf2"
signed_name cc_nf3 = chars "nf3"

-- The condition and the comma, as they stand in front of the target.
abbrev pub print_cond : Cond → Chars
print_cond always = []
print_cond (basic k) = basic_name k ++ chars ", "
print_cond (signed_cc k) = signed_name k ++ chars ", "

-- A branch to a symbol of C.
abbrev pub print_branch : Chars → Cond → Chars → Chars
print_branch name k symbol = name ++ (9 ∷ (print_cond k ++ (b'_' ∷ symbol)))
