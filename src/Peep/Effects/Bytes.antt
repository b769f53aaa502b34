-- ===== src/Peep/Effects/Bytes.antt =====
-- Where s1c88MightRead and s1c88SurelyWrites (src/s1c88/peep.c) differ from what the instructions do.
use sdcc.Common.{◌≡◌, refl, sym, subst, Bool, true, false, not, ◌&&◌, ◌||◌, Chars, Option}
use sdcc.As88.Operand.{
  reg_a, reg_b, ba, hl, ix, iy, sp, cr_br, Operand, s_immed, s_indhl, s_indix, s_indiy, s_idxix,
  s_idxiy, s_r8, s_r16, s_creg, s_pall,
}
use sdcc.As88.Alu.{
  AluOp, s_add, s_adc, s_sub, s_sbc, s_and, s_or, s_cp, s_xor, encode_alu, alu_a, alu16,
}
use sdcc.As88.Machine.{
  ret, rete, rets, pack, upck, nop, mlt, div, sep, halt, slp, sla, sll, sra, srl, rl, rlc, rr, rrc,
  cpl, neg, s_inc, s_dec, s_push, s_pop, s_jp, s_int, s_call, s_swap, s_rot, s_ld, s_ex, s_bit,
  s_alu, Instr, unary, binary, machine, encode_inherent,
}
use sdcc.As88.Load.{encode_ld, ld_a_creg, ld_creg_a, ld_creg_immed, ld_r8, ld_r16}
use sdcc.As88.Other.{
  encode_step, encode_push, encode_pop, encode_jp, encode_int, encode_call, encode_rot, encode_swap,
  encode_ex, encode_bit,
}
use sdcc.As88.Emit.{is_error}
use sdcc.Peep.Print.{Spelling, zeros, ones, symbolic, print_instr}
use sdcc.Peep.Contract.{find_nocase}
use sdcc.Peep.Text.{arg_cont}
use sdcc.Peep.Env.{Env}
use sdcc.Peep.Reads.{might_read, reads_data, reads_one_operand, reads_rest}
use sdcc.Peep.Writes.{surely_writes}
use sdcc.Peep.Effects.{
  by_convention, Register, byte_a, byte_b, byte_l, byte_h, index_x, index_y, register_name,
  instr_reads, instr_writes,
}
use sdcc.Peep.Effects.Sweep.{
  agree, agree-eq, on_registers, on_registers-at, InherentTest, refused_or-taken, UnaryTest,
  BinaryTest, all_instrs,
}

-- The instruction reads the register, and the line is taken for one that does not.
abbrev pub is_missed : Env → Spelling → Instr → Register → Bool
is_missed env w i r = instr_reads i r && not (might_read env (print_instr w i) (register_name r))

abbrev in_hl : Register → Bool
in_hl byte_l = true
in_hl byte_h = true
in_hl _ = false

-- Behind the first operand, a second one is not looked at.
abbrev second_missed : Operand → Register → Bool
second_missed (s_r16 hl) r = in_hl r
second_missed (s_r16 ix) index_x = true
second_missed (s_r16 iy) index_y = true
second_missed s_indix index_x = true
second_missed s_indiy index_y = true
second_missed (s_r8 reg_a) byte_a = true
second_missed _ r = false

abbrev pair_missed : AluOp → Operand → Register → Bool
pair_missed s_add s r = second_missed s r
pair_missed s_adc s r = second_missed s r
pair_missed s_sub s r = second_missed s r
pair_missed s_sbc s r = second_missed s r
pair_missed _ s r = false

abbrev stack_missed : AluOp → Operand → Register → Bool
stack_missed s_cp (s_r16 ba) byte_a = true
stack_missed s_cp (s_r16 ba) byte_b = true
stack_missed s_cp (s_r16 hl) r = in_hl r
stack_missed _ s r = false

abbrev alu_missed : AluOp → Operand → Operand → Register → Bool
alu_missed o s_indhl s r = second_missed s r
alu_missed o (s_r16 ba) s r = pair_missed o s r
alu_missed o (s_r16 sp) s r = stack_missed o s r
alu_missed o d s r = false

-- `cpl` and `neg` are known for A only, and are taken to read A.
abbrev complement_missed : Operand → Register → Bool
complement_missed s_indhl r = in_hl r
complement_missed (s_r8 reg_b) byte_b = true
complement_missed _ r = false

-- `push all` names none of the registers it pushes, but for the letters of `all`.
abbrev push_missed : Operand → Register → Bool
push_missed (s_pall p) byte_b = true
push_missed (s_pall p) byte_h = true
push_missed (s_pall p) index_x = true
push_missed (s_pall p) index_y = true
push_missed _ r = false

-- A symbol in front of an index register is all that is looked at.
abbrev by_symbol : Spelling → Operand → Register → Bool
by_symbol symbolic s_idxix index_x = true
by_symbol symbolic s_idxiy index_y = true
by_symbol _ _ r = false

-- The result is a constant and does not depend on A, so nothing is lost.
abbrev is_constant : Spelling → AluOp → Operand → Operand → Register → Bool
is_constant zeros s_and (s_r8 reg_a) s_immed byte_a = true
is_constant ones s_or (s_r8 reg_a) s_immed byte_a = true
is_constant _ _ _ _ r = false

abbrev pub missed_reads : Spelling → Instr → Register → Bool
missed_reads w (unary s_push d) r = push_missed d r
missed_reads w (unary s_jp (s_r16 hl)) r = in_hl r
missed_reads w (unary (s_rot cpl) d) r = complement_missed d r
missed_reads w (unary (s_rot neg) d) r = complement_missed d r
missed_reads w (binary s_bit (s_r8 reg_a) (s_r8 reg_b)) byte_b = true
missed_reads w (binary s_ld d s) r = by_symbol w d r || by_symbol w s r
missed_reads w (binary (s_alu o) d s) r =
    alu_missed o d s r || by_symbol w s r || is_constant w o d s r
missed_reads w i r = false

-- The line is taken for one that writes the register, and the instruction does not.
abbrev pub is_false_write : Env → Spelling → Instr → Register → Bool
is_false_write env w i r =
    not (by_convention i)
    && (surely_writes env (print_instr w i) (register_name r) && not (instr_writes i r))

abbrev pub false_writes : Instr → Register → Bool
false_writes (unary s_pop (s_creg cr_br)) byte_b = true
false_writes i r = false

module _ (env : Env) where
  abbrev searching : (Chars → Chars → Option Chars) → Env
  searching f = record env { str_str = f }

  abbrev reads_ok : Spelling → Instr → Bool
  reads_ok w i =
      on_registers (λ r. agree (is_missed (searching find_nocase) w i r) (missed_reads w i r))

  reads_inherent : InherentTest reads_ok
  unfolding machine encode_inherent encode_step encode_push encode_pop encode_jp encode_int
      encode_call encode_rot encode_swap encode_ld ld_a_creg ld_creg_a ld_creg_immed ld_r8 ld_r16
      encode_ex encode_bit encode_alu alu_a alu16 might_read reads_data reads_one_operand reads_rest
      arg_cont
  reads_inherent ret = refl
  reads_inherent rete = refl
  reads_inherent rets = refl
  reads_inherent pack = refl
  reads_inherent upck = refl
  reads_inherent nop = refl
  reads_inherent mlt = refl
  reads_inherent div = refl
  reads_inherent sep = refl
  reads_inherent halt = refl
  reads_inherent slp = refl

  reads_unary : UnaryTest reads_ok
  unfolding machine encode_inherent encode_step encode_push encode_pop encode_jp encode_int
      encode_call encode_rot encode_swap encode_ld ld_a_creg ld_creg_a ld_creg_immed ld_r8 ld_r16
      encode_ex encode_bit encode_alu alu_a alu16 might_read reads_data reads_one_operand reads_rest
      arg_cont
  reads_unary s_inc = refl
  reads_unary s_dec = refl
  reads_unary s_push = refl
  reads_unary s_pop = refl
  reads_unary s_jp = refl
  reads_unary s_int = refl
  reads_unary s_call = refl
  reads_unary s_swap = refl
  reads_unary (s_rot sla) = refl
  reads_unary (s_rot sll) = refl
  reads_unary (s_rot sra) = refl
  reads_unary (s_rot srl) = refl
  reads_unary (s_rot rl) = refl
  reads_unary (s_rot rlc) = refl
  reads_unary (s_rot rr) = refl
  reads_unary (s_rot rrc) = refl
  reads_unary (s_rot cpl) = refl
  reads_unary (s_rot neg) = refl

  reads_binary : BinaryTest reads_ok
  unfolding machine encode_inherent encode_step encode_push encode_pop encode_jp encode_int
      encode_call encode_rot encode_swap encode_ld ld_a_creg ld_creg_a ld_creg_immed ld_r8 ld_r16
      encode_ex encode_bit encode_alu alu_a alu16 might_read reads_data reads_one_operand reads_rest
      arg_cont
  reads_binary s_ld = refl
  reads_binary s_ex = refl
  reads_binary s_bit = refl
  reads_binary (s_alu s_add) = refl
  reads_binary (s_alu s_adc) = refl
  reads_binary (s_alu s_sub) = refl
  reads_binary (s_alu s_sbc) = refl
  reads_binary (s_alu s_and) = refl
  reads_binary (s_alu s_or) = refl
  reads_binary (s_alu s_cp) = refl
  reads_binary (s_alu s_xor) = refl

  abbrev writes_ok : Spelling → Instr → Bool
  writes_ok w i = on_registers (λ r. agree (is_false_write env w i r) (false_writes i r))

  writes_inherent : InherentTest writes_ok
  unfolding machine encode_inherent encode_step encode_push encode_pop encode_jp encode_int
      encode_call encode_rot encode_swap encode_ld ld_a_creg ld_creg_a ld_creg_immed ld_r8 ld_r16
      encode_ex encode_bit encode_alu alu_a alu16 surely_writes
  writes_inherent ret = refl
  writes_inherent rete = refl
  writes_inherent rets = refl
  writes_inherent pack = refl
  writes_inherent upck = refl
  writes_inherent nop = refl
  writes_inherent mlt = refl
  writes_inherent div = refl
  writes_inherent sep = refl
  writes_inherent halt = refl
  writes_inherent slp = refl

  writes_unary : UnaryTest writes_ok
  unfolding machine encode_inherent encode_step encode_push encode_pop encode_jp encode_int
      encode_call encode_rot encode_swap encode_ld ld_a_creg ld_creg_a ld_creg_immed ld_r8 ld_r16
      encode_ex encode_bit encode_alu alu_a alu16 surely_writes
  writes_unary s_inc = refl
  writes_unary s_dec = refl
  writes_unary s_push = refl
  writes_unary s_pop = refl
  writes_unary s_jp = refl
  writes_unary s_int = refl
  writes_unary s_call = refl
  writes_unary s_swap = refl
  writes_unary (s_rot sla) = refl
  writes_unary (s_rot sll) = refl
  writes_unary (s_rot sra) = refl
  writes_unary (s_rot srl) = refl
  writes_unary (s_rot rl) = refl
  writes_unary (s_rot rlc) = refl
  writes_unary (s_rot rr) = refl
  writes_unary (s_rot rrc) = refl
  writes_unary (s_rot cpl) = refl
  writes_unary (s_rot neg) = refl

  writes_binary : BinaryTest writes_ok
  unfolding machine encode_inherent encode_step encode_push encode_pop encode_jp encode_int
      encode_call encode_rot encode_swap encode_ld ld_a_creg ld_creg_a ld_creg_immed ld_r8 ld_r16
      encode_ex encode_bit encode_alu alu_a alu16 surely_writes
  writes_binary s_ld = refl
  writes_binary s_ex = refl
  writes_binary s_bit = refl
  writes_binary (s_alu s_add) = refl
  writes_binary (s_alu s_adc) = refl
  writes_binary (s_alu s_sub) = refl
  writes_binary (s_alu s_sbc) = refl
  writes_binary (s_alu s_and) = refl
  writes_binary (s_alu s_or) = refl
  writes_binary (s_alu s_cp) = refl
  writes_binary (s_alu s_xor) = refl

  -- For an instruction that the assembler takes, in each of the four spellings of an expression,
  -- s1c88MightRead misses a register that the instruction reads just where `missed_reads` lists it; here `StrStr` finds the first place of a text in
  -- another, without regard to case.
  pub missed_reads_exactly :
      ((text word : Chars) → env.str_str text word ≡ find_nocase text word)
      → (w : Spelling) (i : Instr) (r : Register) → is_error (machine i) ≡ false
      → is_missed env w i r ≡ missed_reads w i r
  missed_reads_exactly h w i r taken =
      subst (λ f. is_missed (searching f) w i r ≡ missed_reads w i r)
        (sym (λ j text word. h text word j))
        (agree-eq (is_missed (searching find_nocase) w i r) (missed_reads w i r) (
          on_registers-at
            (λ r. agree (is_missed (searching find_nocase) w i r) (missed_reads w i r))
            (refused_or-taken (reads_ok w) i
              (all_instrs reads_ok reads_inherent reads_unary reads_binary w i) taken)
            r))

  -- For an instruction that the assembler takes, in each of the four spellings of an expression,
  -- s1c88SurelyWrites claims a register that the
  -- instruction does not write, a call and a return aside, just where `false_writes` lists it: B for `pop br`.
  pub false_writes_exactly :
      (w : Spelling) (i : Instr) (r : Register)
      → is_error (machine i) ≡ false
      → is_false_write env w i r ≡ false_writes i r
  false_writes_exactly w i r taken = agree-eq (is_false_write env w i r) (false_writes i r) (
      on_registers-at (λ r. agree (is_false_write env w i r) (false_writes i r))
        (refused_or-taken (writes_ok w) i
          (all_instrs writes_ok writes_inherent writes_unary writes_binary w i) taken)
        r)
