-- ===== src/Peep/Tests.antt =====
-- The theorems on src/s1c88/peep.c at inputs that meet their hypotheses.
use sdcc.Common.{
  zero, suc, ◌≡◌, ◌↔◌, refl, Bool, true, false, List, [], ◌∷◌, none, some, Chars, chars,
}
use sdcc.As88.Operand.{
  reg_a, reg_b, ba, hl, cr_br, cr_sc, s_indhl, s_idxix, s_idxix, s_idxiy, s_r8, s_r16, s_creg,
}
use sdcc.As88.Machine.{s_pop, s_ld, s_alu, Instr, unary, binary, machine}
use sdcc.As88.Alu.{s_add, s_and, encode_alu, alu16}
use sdcc.As88.Emit.{size}
use sdcc.As88.Load.{encode_ld, ld_a_creg}
use sdcc.As88.Other.{encode_pop}
use sdcc.As88.Branch.{signed_cc, cc_lt, cc_v}
use sdcc.As88.Branch.Flags.{Flags, holds}
use sdcc.Peep.Branches.{other_area, branch_line, branch_code}
use sdcc.Peep.Branches.Exact.{branch_size_exact}
use sdcc.Peep.Print.{small}
use sdcc.Peep.Contract.{find_nocase}
use sdcc.Peep.Env.{Env, ByteRegs, Line}
use sdcc.Peep.Effects.{carry_f, zero_f, byte_b, byte_l}
use sdcc.Peep.Effects.Bytes.{
  is_missed, missed_reads, missed_reads_exactly, is_false_write, false_writes, false_writes_exactly,
}
use sdcc.Peep.Effects.Status.{is_missed_flag, missed_flag_reads, missed_flag_reads_exactly}
use sdcc.Peep.Flags.{might_read_flag, might_read_flag_condition}
use sdcc.Peep.Flags.Conditions.{with_flag, unread_flag_irrelevant}
use sdcc.Peep.Names.{can_assign, can_split_reg, can_join_regs}
use sdcc.Peep.Names.Legal.{IsTaken, can_assign_legal, split_join}
use sdcc.Peep.Size.{instruction_size}
use sdcc.Peep.NotUsed.{not_used, parts}
use sdcc.Peep.NotUsed.Exact.{AllOf, NeverRead, not_used_answers, not_used_exactly}
use sdcc.Peep.Live.{PlainLabels}
use sdcc.Peep.Writes.{surely_writes, call_surely_writes}
use sdcc.Peep.Scan.{writes}

abbrev no_regs : ByteRegs
no_regs = record {
  a_idx = false;
  b_idx = false;
  l_idx = false;
  h_idx = false;
  iyl_idx = false;
  iyh_idx = false;
}

abbrev leaf : Env
leaf = record {
  str_str = find_nocase;
  find_sym = λ s. none;
  has_label_ref = λ s. true;
  return_regs = some (chars "a" ∷ []);
  used_as_parms = no_regs;
  preserved_in_calls = no_regs;
}

abbrev line : Chars → Line
line s = record {
  text = some s;
  is_debug = false;
  is_comment = false;
  is_label = false;
  is_inline = false;
}

abbrev label : Chars → Line
label s = record {
  text = some s;
  is_debug = false;
  is_comment = false;
  is_label = true;
  is_inline = false;
}

-- A loop that counts with B and forgets A.
abbrev count_down : List Line
count_down =
    line (chars "ld\ta, b")
    ∷ label (chars "00101$:")
    ∷ line (chars "dec\tb")
    ∷ line (chars "jp\tnz, 00101$")
    ∷ line (chars "ld\ta, #0x00")
    ∷ line (chars "ret")
    ∷ []

count_down-PlainLabels : PlainLabels leaf count_down (chars "a")
unfolding writes surely_writes call_surely_writes
count_down-PlainLabels zero h = cc
count_down-PlainLabels (suc zero) h = (refl, refl, refl)
count_down-PlainLabels (suc (suc zero)) h = cc
count_down-PlainLabels (suc (suc (suc zero))) h = cc
count_down-PlainLabels (suc (suc (suc (suc zero)))) h = cc
count_down-PlainLabels (suc (suc (suc (suc (suc zero))))) h = cc
count_down-PlainLabels (suc (suc (suc (suc (suc (suc j)))))) h = cc

not_used_exactly_example :
    (not_used leaf count_down false (chars "a") 0 ≡ some true)
    ↔ AllOf (NeverRead leaf count_down 1) (chars "a" ∷ [])
unfolding parts
not_used_exactly_example =
    not_used_exactly leaf count_down false (chars "a") (chars "a" ∷ []) 0 refl
      (count_down-PlainLabels, tt)

not_used_answers_example : (ok : Bool) × (not_used leaf count_down false (chars "hl") 0 ≡ some ok)
not_used_answers_example = not_used_answers leaf count_down false (chars "hl") 0

abbrev ld_b_index : Instr
ld_b_index = binary s_ld (s_r8 reg_b) s_idxix

branch_size_exact_example :
    instruction_size find_nocase (branch_line (other_area true (signed_cc cc_lt)) (chars "draw"))
    ≡ size (branch_code (other_area true (signed_cc cc_lt)))
branch_size_exact_example =
    branch_size_exact find_nocase (chars "draw") refl (other_area true (signed_cc cc_lt))

abbrev add_ba_hl : Instr
add_ba_hl = binary (s_alu s_add) (s_r16 ba) (s_r16 hl)

missed_reads_exactly_example :
    is_missed leaf small add_ba_hl byte_l ≡ missed_reads small add_ba_hl byte_l
unfolding machine encode_alu alu16
missed_reads_exactly_example =
    missed_reads_exactly leaf (λ text word. refl) small add_ba_hl byte_l refl

abbrev pop_br : Instr
pop_br = unary s_pop (s_creg cr_br)

false_writes_exactly_example : is_false_write leaf small pop_br byte_b ≡ false_writes pop_br byte_b
unfolding machine encode_pop
false_writes_exactly_example = false_writes_exactly leaf small pop_br byte_b refl

abbrev ld_a_sc : Instr
ld_a_sc = binary s_ld (s_r8 reg_a) (s_creg cr_sc)

missed_flag_reads_exactly_example :
    is_missed_flag find_nocase small ld_a_sc carry_f ≡ missed_flag_reads ld_a_sc carry_f
unfolding machine encode_ld ld_a_creg
missed_flag_reads_exactly_example =
    missed_flag_reads_exactly find_nocase (λ text word. refl) small ld_a_sc carry_f refl

abbrev and_a_b : Instr
and_a_b = binary (s_alu s_and) (s_r8 reg_a) (s_r8 reg_b)

abbrev no_flags : Flags
no_flags = record {
  neg_flag = false;
  over_flag = false;
  carry_flag = false;
  zero_flag = false;
  f0 = false;
  f1 = false;
  f2 = false;
  f3 = false;
}

unread_flag_irrelevant_example :
    holds (signed_cc cc_v) (with_flag zero_f true no_flags) ≡ holds (signed_cc cc_v) no_flags
unfolding might_read_flag might_read_flag_condition
unread_flag_irrelevant_example =
    unread_flag_irrelevant find_nocase (chars "x") (signed_cc cc_v) zero_f true no_flags refl

split_join_example : can_join_regs (chars "b" ∷ chars "a" ∷ []) ≡ (some (chars "ba"), true)
unfolding can_split_reg
split_join_example = split_join (chars "ba") (chars "b" ∷ chars "a" ∷ []) refl

can_assign_legal_example :
    (can_assign (chars "a") (chars "(hl)") none ≡ true → IsTaken (s_r8 reg_a) s_indhl)
    × (can_assign (chars "a") (chars "4") (some (chars "ix")) ≡ true → IsTaken (s_r8 reg_a) s_idxix)
    × (can_assign (chars "a") (chars "4") (some (chars "iy")) ≡ true → IsTaken (s_r8 reg_a) s_idxiy)
    × (can_assign (chars "4") (chars "ix") (some (chars "(hl)")) ≡ true → IsTaken s_idxix s_indhl)
    × (can_assign (chars "4") (chars "iy") (some (chars "(hl)")) ≡ true → IsTaken s_idxiy s_indhl)
can_assign_legal_example = can_assign_legal small (s_r8 reg_a) s_indhl
