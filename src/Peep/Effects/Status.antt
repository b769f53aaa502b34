-- ===== src/Peep/Effects/Status.antt =====
-- Where s1c88MightReadFlag and s1c88SurelyWritesFlag (src/s1c88/peep.c) differ from what the
-- instructions do.
use sdcc.Common.{◌≡◌, refl, sym, subst, Bool, true, false, not, ◌&&◌, ◌||◌, Chars, Option}
use sdcc.As88.Operand.{
  reg_a, ba, ix, iy, cr_br, cr_sc, Operand, s_indix, s_indiy, s_idxix, s_idxiy, s_r8, s_r16, s_creg,
}
use sdcc.As88.Alu.{
  AluOp, s_add, s_adc, s_sub, s_sbc, s_and, s_or, s_cp, s_xor, encode_alu, alu_a, alu16,
}
use sdcc.As88.Machine.{
  ret, rete, rets, pack, upck, nop, mlt, div, sep, halt, slp, Rotation, sla, sll, sra, srl, rl, rlc,
  rr, rrc, cpl, neg, s_inc, s_dec, s_push, s_pop, s_jp, s_int, s_call, s_swap, s_rot, s_ld, s_ex,
  s_bit, s_alu, Instr, unary, binary, machine, encode_inherent,
}
use sdcc.As88.Load.{encode_ld, ld_a_creg, ld_creg_a, ld_creg_immed, ld_r8, ld_r16}
use sdcc.As88.Other.{
  encode_step, encode_push, encode_pop, encode_jp, encode_int, encode_call, encode_rot, encode_swap,
  encode_ex, encode_bit,
}
use sdcc.As88.Emit.{is_error}
use sdcc.Peep.Print.{Spelling, is_symbolic, print_instr}
use sdcc.Peep.Contract.{find_nocase}
use sdcc.Peep.Text.{arg_cont}
use sdcc.Peep.Flags.{might_read_flag, surely_writes_flag}
use sdcc.Peep.Effects.{
  by_convention, Flag, carry_f, overflow_f, flag_name, instr_reads_flag, instr_writes_flag,
}
use sdcc.Peep.Effects.Sweep.{
  agree, agree-eq, on_flags, on_flags-at, InherentTest, refused_or-taken, UnaryTest, BinaryTest,
  all_instrs,
}

-- The instruction reads the flag, and the line is taken for one that does not.
abbrev pub is_missed_flag : (Chars → Chars → Option Chars) → Spelling → Instr → Flag → Bool
is_missed_flag str_str w i f =
    instr_reads_flag i f && not (might_read_flag str_str (print_instr w i) (flag_name f))

-- The instructions that take SC as an operand.
abbrev pub missed_flag_reads : Instr → Flag → Bool
missed_flag_reads (unary s_push (s_creg cr_sc)) f = true
missed_flag_reads (binary s_ld (s_r8 reg_a) (s_creg cr_sc)) f = true
missed_flag_reads (binary (s_alu o) (s_creg cr_sc) s) f = true
missed_flag_reads i f = false

-- The line is taken for one that writes the flag, and the instruction does not.
abbrev pub is_false_flag_write : (Chars → Chars → Option Chars) → Spelling → Instr → Flag → Bool
is_false_flag_write str_str w i f =
    not (by_convention i)
    && (surely_writes_flag str_str (print_instr w i) (flag_name f) && not (instr_writes_flag i f))

abbrev is_overflow_flag : Flag → Bool
is_overflow_flag overflow_f = true
is_overflow_flag _ = false

abbrev is_carry_flag : Flag → Bool
is_carry_flag carry_f = true
is_carry_flag _ = false

-- Loads to A or BA whose second operand has an `i` or an `r`, as in `ld a,i` of the Z80; a symbol
-- in front of the index register is all that is looked at.
abbrev ld_false_writes : Spelling → Operand → Operand → Bool
ld_false_writes w (s_r8 reg_a) s_indix = true
ld_false_writes w (s_r8 reg_a) s_indiy = true
ld_false_writes w (s_r8 reg_a) s_idxix = not (is_symbolic w)
ld_false_writes w (s_r8 reg_a) s_idxiy = not (is_symbolic w)
ld_false_writes w (s_r8 reg_a) (s_creg cr_br) = true
ld_false_writes w (s_r16 ba) s_indix = true
ld_false_writes w (s_r16 ba) s_indiy = true
ld_false_writes w (s_r16 ba) (s_r16 ix) = true
ld_false_writes w (s_r16 ba) (s_r16 iy) = true
ld_false_writes w _ _ = false

abbrev is_known_rotation : Rotation → Bool
is_known_rotation sll = false
is_known_rotation cpl = false
is_known_rotation neg = false
is_known_rotation _ = true

-- The logic instructions leave C and V alone, unless they work on SC.
abbrev logic_false_writes : AluOp → Operand → Flag → Bool
logic_false_writes o (s_creg cr_sc) f = false
logic_false_writes s_and d f = is_carry_flag f || is_overflow_flag f
logic_false_writes s_or d f = is_carry_flag f || is_overflow_flag f
logic_false_writes s_xor d f = is_carry_flag f || is_overflow_flag f
logic_false_writes _ d f = false

abbrev pub false_flag_writes : Spelling → Instr → Flag → Bool
false_flag_writes w (binary (s_alu o) d s) f = logic_false_writes o d f
false_flag_writes w (binary s_bit d s) f = is_overflow_flag f
false_flag_writes w (binary s_ld d s) f = ld_false_writes w d s && is_overflow_flag f
false_flag_writes w (unary (s_rot o) d) f = is_known_rotation o && is_overflow_flag f
false_flag_writes w i f = false

abbrev reads_ok : Spelling → Instr → Bool
reads_ok w i = on_flags (λ f. agree (is_missed_flag find_nocase w i f) (missed_flag_reads i f))

reads_inherent : InherentTest reads_ok
unfolding machine encode_inherent encode_step encode_push encode_pop encode_jp encode_int
    encode_call encode_rot encode_swap encode_ld ld_a_creg ld_creg_a ld_creg_immed ld_r8 ld_r16
    encode_ex encode_bit encode_alu alu_a alu16 might_read_flag arg_cont
reads_inherent ret = refl
reads_inherent rete = refl
reads_inherent rets = refl
reads_inherent pack = refl
reads_inherent upck = refl
reads_inherent nop = refl
reads_inherent mlt = refl
reads_inherent div = refl
reads_inherent sep = refl
reads_inherent halt = refl
reads_inherent slp = refl

reads_unary : UnaryTest reads_ok
unfolding machine encode_inherent encode_step encode_push encode_pop encode_jp encode_int
    encode_call encode_rot encode_swap encode_ld ld_a_creg ld_creg_a ld_creg_immed ld_r8 ld_r16
    encode_ex encode_bit encode_alu alu_a alu16 might_read_flag arg_cont
reads_unary s_inc = refl
reads_unary s_dec = refl
reads_unary s_push = refl
reads_unary s_pop = refl
reads_unary s_jp = refl
reads_unary s_int = refl
reads_unary s_call = refl
reads_unary s_swap = refl
reads_unary (s_rot sla) = refl
reads_unary (s_rot sll) = refl
reads_unary (s_rot sra) = refl
reads_unary (s_rot srl) = refl
reads_unary (s_rot rl) = refl
reads_unary (s_rot rlc) = refl
reads_unary (s_rot rr) = refl
reads_unary (s_rot rrc) = refl
reads_unary (s_rot cpl) = refl
reads_unary (s_rot neg) = refl

reads_binary : BinaryTest reads_ok
unfolding machine encode_inherent encode_step encode_push encode_pop encode_jp encode_int
    encode_call encode_rot encode_swap encode_ld ld_a_creg ld_creg_a ld_creg_immed ld_r8 ld_r16
    encode_ex encode_bit encode_alu alu_a alu16 might_read_flag arg_cont
reads_binary s_ld = refl
reads_binary s_ex = refl
reads_binary s_bit = refl
reads_binary (s_alu s_add) = refl
reads_binary (s_alu s_adc) = refl
reads_binary (s_alu s_sub) = refl
reads_binary (s_alu s_sbc) = refl
reads_binary (s_alu s_and) = refl
reads_binary (s_alu s_or) = refl
reads_binary (s_alu s_cp) = refl
reads_binary (s_alu s_xor) = refl

abbrev writes_ok : Spelling → Instr → Bool
writes_ok w i =
    on_flags (λ f. agree (is_false_flag_write find_nocase w i f) (false_flag_writes w i f))

module _ (str_str : Chars → Chars → Option Chars) where
  abbrev FindsNocase : Type 0
  FindsNocase = (text word : Chars) → str_str text word ≡ find_nocase text word

  -- For an instruction that the assembler takes, in each of the four spellings of an expression,
  -- s1c88MightReadFlag misses a flag that the
  -- instruction reads just where `missed_flag_reads` lists it: where SC is an operand. Here `StrStr`
  -- finds the first place of a text in another, without regard to case.
  pub missed_flag_reads_exactly :
      FindsNocase
      → (w : Spelling) (i : Instr) (f : Flag) → is_error (machine i) ≡ false
      → is_missed_flag str_str w i f ≡ missed_flag_reads i f
  missed_flag_reads_exactly h w i f taken =
      subst (λ find. is_missed_flag find w i f ≡ missed_flag_reads i f)
        (sym (λ j text word. h text word j))
        (agree-eq (is_missed_flag find_nocase w i f) (missed_flag_reads i f) (
          on_flags-at (λ f. agree (is_missed_flag find_nocase w i f) (missed_flag_reads i f))
            (refused_or-taken (reads_ok w) i
              (all_instrs reads_ok reads_inherent reads_unary reads_binary w i) taken)
            f))
