-- ===== src/Peep/Contract.antt =====
-- The sizes that src/s1c88/peep.c counts for a line, against the code that sdas/as88 emits for the
-- same line.
use sdcc.Common.{
  Bool, true, false, not, ◌&&◌, ◌||◌, [], ◌∷◌, Option, none, some, ltb, ◌==◌, Chars, to_lower,
  is_empty, if◌then◌else◌,
}
use sdcc.As88.Operand.{
  reg_a, reg_b, ba, hl, sp, cr_sc, Operand, s_immed, s_indhl, s_idxix, s_idxiy, s_idxsp, s_indm,
  s_brll, s_r8, s_r16, s_creg, s_pall,
}
use sdcc.As88.Machine.{
  halt, Rotation, sll, cpl, s_inc, s_dec, s_push, s_pop, s_rot, s_ld, s_bit, s_alu, Instr, inherent,
  unary, binary, machine,
}
use sdcc.As88.Emit.{size, is_error}
use sdcc.Peep.Effects.Sweep.{agree}
use sdcc.Peep.Print.{Spelling, is_symbolic, print_instr}
use sdcc.Peep.Size.{instruction_size}

-- What SDCC's `StrStr` does: the first place, without regard to case.
abbrev starts_fold : Chars → Chars → Bool
starts_fold ps [] = true
starts_fold [] (s ∷ ss) = false
starts_fold (p ∷ ps) (s ∷ ss) = (to_lower p == to_lower s) && starts_fold ps ss

abbrev pub find_nocase : Chars → Chars → Option Chars
find_nocase [] s = if is_empty s then some [] else none
find_nocase (p ∷ ps) s = if starts_fold (p ∷ ps) s then some (p ∷ ps) else find_nocase ps s

-- The assembler takes the instruction, and writes more bytes than are counted.
abbrev pub is_short : (Chars → Chars → Option Chars) → Spelling → Instr → Bool
is_short str_str w i =
    not (is_error (machine i))
    && ltb (instruction_size str_str (print_instr w i)) (size (machine i))

-- The loads that are counted with fewer bytes than they have.
abbrev ld_under_counted : Operand → Operand → Bool
ld_under_counted s_indhl (s_r16 ba) = true
ld_under_counted s_indhl (s_r16 hl) = true
ld_under_counted s_indm (s_r8 reg_a) = true
ld_under_counted (s_r8 reg_a) s_indm = true
ld_under_counted (s_r8 reg_a) (s_creg cr_sc) = true
ld_under_counted (s_creg cr_sc) (s_r8 reg_a) = true
ld_under_counted (s_r16 ba) s_immed = true
ld_under_counted (s_r16 ba) s_indhl = true
ld_under_counted (s_r16 ba) (s_r16 ba) = true
ld_under_counted (s_r16 ba) (s_r16 hl) = true
ld_under_counted (s_r16 ba) (s_r16 sp) = true
ld_under_counted (s_r16 hl) s_indhl = true
ld_under_counted (s_r16 hl) (s_r16 ba) = true
ld_under_counted (s_r16 hl) (s_r16 hl) = true
ld_under_counted (s_r16 hl) (s_r16 sp) = true
ld_under_counted (s_r16 sp) s_immed = true
ld_under_counted (s_r16 sp) (s_r16 ba) = true
ld_under_counted (s_r16 sp) (s_r16 hl) = true
ld_under_counted (s_r16 sp) (s_r16 sp) = true
ld_under_counted _ _ = false

abbrev push_under_counted : Operand → Bool
push_under_counted (s_r8 r) = true
push_under_counted (s_pall p) = true
push_under_counted _ = false

abbrev is_brll : Operand → Bool
is_brll s_brll = true
is_brll _ = false

abbrev rot_under_counted : Rotation → Operand → Bool
rot_under_counted sll d = false
rot_under_counted cpl s_indhl = true
rot_under_counted cpl (s_r8 reg_a) = true
rot_under_counted cpl (s_r8 reg_b) = true
rot_under_counted o d = is_brll d

abbrev alu_under_counted : Operand → Operand → Bool
alu_under_counted (s_r8 reg_a) s_indm = true
alu_under_counted (s_r8 reg_a) s_brll = true
alu_under_counted _ _ = false

-- A symbol in front of an index register or SP is taken for an address.
abbrev ld_by_symbol : Operand → Operand → Bool
ld_by_symbol s_idxix s = true
ld_by_symbol s_idxiy s = true
ld_by_symbol s_idxsp s = true
ld_by_symbol (s_r8 r) s_idxix = true
ld_by_symbol (s_r8 r) s_idxiy = true
ld_by_symbol (s_r16 ba) s_idxsp = true
ld_by_symbol (s_r16 hl) s_idxsp = true
ld_by_symbol _ _ = false

abbrev alu_by_symbol : Operand → Operand → Bool
alu_by_symbol (s_r8 reg_a) s_idxix = true
alu_by_symbol (s_r8 reg_a) s_idxiy = true
alu_by_symbol _ _ = false

abbrev pub under_counted : Spelling → Instr → Bool
under_counted w (inherent halt) = true
under_counted w (inherent o) = false
under_counted w (unary s_inc d) = is_brll d
under_counted w (unary s_dec d) = is_brll d
under_counted w (unary s_push d) = push_under_counted d
under_counted w (unary s_pop d) = push_under_counted d
under_counted w (unary (s_rot o) d) = rot_under_counted o d
under_counted w (unary k d) = false
under_counted w (binary s_ld d s) = ld_under_counted d s || is_symbolic w && ld_by_symbol d s
under_counted w (binary s_bit s_brll s_immed) = true
under_counted w (binary (s_alu o) d s) = alu_under_counted d s || is_symbolic w && alu_by_symbol d s
under_counted w (binary k d s) = false

-- By computation, one class of instructions at a time.
abbrev as_listed : Spelling → Instr → Bool
as_listed w i = agree (is_short find_nocase w i) (under_counted w i)
