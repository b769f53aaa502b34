-- ===== src/As88/Manual/Sweep.antt =====
-- Every instruction of sdas/as88/s1c88mch.c put to the test against the operation code map.
use sdcc.Common.{◌≡◌, refl, Bool, true, ◌||◌}
use sdcc.As88.Operand.{sp, Operand, s_r16}
use sdcc.As88.Machine.{
  Inherent, ret, rete, rets, pack, upck, nop, mlt, div, sep, halt, slp, sla, sll, sra, srl, rl, rlc,
  rr, rrc, cpl, neg, Unary, s_inc, s_dec, s_push, s_pop, s_jp, s_int, s_call, s_swap, s_rot, Binary,
  s_ld, s_ex, s_bit, s_alu, Instr, inherent, unary, binary, machine, encode_inherent,
}
use sdcc.As88.Alu.{s_add, s_adc, s_sub, s_sbc, s_and, s_or, s_cp, s_xor, encode_alu, alu_a, alu16}
use sdcc.As88.Manual.Decode.{manual}
use sdcc.As88.Manual.Same.{operands, same}
use sdcc.As88.Load.{encode_ld, ld_a_creg, ld_creg_a, ld_creg_immed, ld_r8, ld_r16}
use sdcc.As88.Other.{
  encode_step, encode_push, encode_pop, encode_jp, encode_int, encode_call, encode_rot, encode_swap,
  encode_ex, encode_bit,
}
use sdcc.As88.Manual.Conforms.{conforms, every}

-- The tests run by computation, one class of instructions at a time.
pub inherent_test : (o : Inherent) → conforms (inherent o) (machine (inherent o)) ≡ true
unfolding machine encode_inherent manual
inherent_test ret = refl
inherent_test rete = refl
inherent_test rets = refl
inherent_test pack = refl
inherent_test upck = refl
inherent_test nop = refl
inherent_test mlt = refl
inherent_test div = refl
inherent_test sep = refl
inherent_test halt = refl
inherent_test slp = refl

abbrev pub unary_ok : Unary → Operand → Bool
unary_ok k d = conforms (unary k d) (machine (unary k d))

pub unary_test : (k : Unary) → every (unary_ok k) operands ≡ true
unfolding machine encode_step encode_push encode_pop encode_jp encode_int encode_call encode_rot
    encode_swap manual
unary_test s_inc = refl
unary_test s_dec = refl
unary_test s_push = refl
unary_test s_pop = refl
unary_test s_jp = refl
unary_test s_int = refl
unary_test s_call = refl
unary_test s_swap = refl
unary_test (s_rot sla) = refl
unary_test (s_rot sll) = refl
unary_test (s_rot sra) = refl
unary_test (s_rot srl) = refl
unary_test (s_rot rl) = refl
unary_test (s_rot rlc) = refl
unary_test (s_rot rr) = refl
unary_test (s_rot rrc) = refl
unary_test (s_rot cpl) = refl
unary_test (s_rot neg) = refl

-- `ld sp,sp`, which the chip does not have.
abbrev pub ld_sp_sp : Instr
ld_sp_sp = binary s_ld (s_r16 sp) (s_r16 sp)

abbrev pub binary_ok : Binary → Operand → Operand → Bool
binary_ok k d s = same (binary k d s) ld_sp_sp || conforms (binary k d s) (machine (binary k d s))

pub binary_test : (k : Binary) → every (λ d. every (binary_ok k d) operands) operands ≡ true
unfolding machine encode_ld ld_a_creg ld_creg_a ld_creg_immed ld_r8 ld_r16 encode_ex encode_bit
    encode_alu alu_a alu16 manual
binary_test s_ld = refl
binary_test s_ex = refl
binary_test s_bit = refl
binary_test (s_alu s_add) = refl
binary_test (s_alu s_adc) = refl
binary_test (s_alu s_sub) = refl
binary_test (s_alu s_sbc) = refl
binary_test (s_alu s_and) = refl
binary_test (s_alu s_or) = refl
binary_test (s_alu s_cp) = refl
binary_test (s_alu s_xor) = refl
