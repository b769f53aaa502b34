-- ===== src/Peep/Names/Legal.antt =====
-- What src/s1c88/peep.c says of register names, against the assembler and against each other.
use sdcc.Common.{
  ◌≡◌, refl, inl, inr, Bool, true, false, not, ◌&&◌, ◌||◌, List, [], ◌∷◌, none, some, Chars, chars,
  str_eq, str_eq-eq, subst, sym, arith, Bool-cases,
}
use sdcc.As88.Operand.{Operand, s_idxix, s_idxiy}
use sdcc.As88.Machine.{s_ld, binary, machine}
use sdcc.As88.Load.{encode_ld, ld_a_creg, ld_creg_a, ld_creg_immed, ld_r8, ld_r16}
use sdcc.As88.Emit.{is_error}
use sdcc.As88.Manual.Same.{operands}
use sdcc.As88.Manual.Conforms.{every, for_all}
use sdcc.Peep.Print.{Spelling, print_operand, print_offset}
use sdcc.Peep.Effects.Sweep.{on_spellings, on_spellings-at}
use sdcc.Peep.Names.{
  is_reg, is_reg_pair, assign_indexed, assign_plain, can_assign, can_join_regs, can_split_reg,
  register_base_name,
}

-- The assembler takes a load that may be assigned.
abbrev if_assigned : Bool → Operand → Operand → Bool
if_assigned asked d s = not asked || not (is_error (machine (binary s_ld d s)))

abbrev plain_ok : Spelling → Operand → Operand → Bool
plain_ok w d s = if_assigned (can_assign (print_operand w d) (print_operand w s) none) d s

-- From and to an indexed operand: the rules ask with the offset, the index register and the other operand.
abbrev from_index_ok : Spelling → Operand → Bool
from_index_ok w d =
    if_assigned (can_assign (print_operand w d) (print_offset w) (some (chars "ix"))) d s_idxix
    && if_assigned (can_assign (print_operand w d) (print_offset w) (some (chars "iy"))) d s_idxiy

abbrev to_index_ok : Spelling → Operand → Bool
to_index_ok w s =
    if_assigned (can_assign (print_offset w) (chars "ix") (some (print_operand w s))) s_idxix s
    && if_assigned (can_assign (print_offset w) (chars "iy") (some (print_operand w s))) s_idxiy s

plain_test : on_spellings (λ w. every (λ d. every (λ s. plain_ok w d s) operands) operands) ≡ true
unfolding can_assign assign_indexed assign_plain is_reg is_reg_pair machine encode_ld ld_a_creg
    ld_creg_a ld_creg_immed ld_r8 ld_r16
plain_test = refl

from_index_test : on_spellings (λ w. every (from_index_ok w) operands) ≡ true
unfolding can_assign assign_indexed assign_plain is_reg is_reg_pair machine encode_ld ld_a_creg
    ld_creg_a ld_creg_immed ld_r8 ld_r16
from_index_test = refl

to_index_test : on_spellings (λ w. every (to_index_ok w) operands) ≡ true
unfolding can_assign assign_indexed assign_plain is_reg is_reg_pair machine encode_ld ld_a_creg
    ld_creg_a ld_creg_immed ld_r8 ld_r16
to_index_test = refl

abbrev pub IsTaken : Operand → Operand → Type 0
IsTaken d s = is_error (machine (binary s_ld d s)) ≡ false

not-is_error :
    (asked : Bool) (d s : Operand) → if_assigned asked d s ≡ true → asked ≡ true → IsTaken d s
not-is_error asked d s h yes_asked = ground arith

-- What s1c88canAssign lets be assigned, in each of the four spellings of an expression, the assembler
-- takes as a load: between two plain operands,
-- from an indexed operand, and to one.
pub can_assign_legal :
    (w : Spelling) (d s : Operand)
    → (can_assign (print_operand w d) (print_operand w s) none ≡ true → IsTaken d s)
      × (can_assign (print_operand w d) (print_offset w) (some (chars "ix")) ≡ true
          → IsTaken d s_idxix)
      × (can_assign (print_operand w d) (print_offset w) (some (chars "iy")) ≡ true
          → IsTaken d s_idxiy)
      × (can_assign (print_offset w) (chars "ix") (some (print_operand w s)) ≡ true
          → IsTaken s_idxix s)
      × (can_assign (print_offset w) (chars "iy") (some (print_operand w s)) ≡ true
          → IsTaken s_idxiy s)
can_assign_legal w d s =
    let plain =
      for_all (λ s. plain_ok w d s)
        (for_all (λ d. every (λ s. plain_ok w d s) operands)
          (on_spellings-at (λ w. every (λ d. every (λ s. plain_ok w d s) operands) operands)
            plain_test w)
          d)
        s in
    let from_index =
      for_all (from_index_ok w)
        (on_spellings-at (λ w. every (from_index_ok w) operands) from_index_test w) d in
    let to_index =
      for_all (to_index_ok w)
        (on_spellings-at (λ w. every (to_index_ok w) operands) to_index_test w) s in
    (
      not-is_error (can_assign (print_operand w d) (print_operand w s) none) d s plain,
      λ asked. ground arith,
      λ asked. ground arith,
      λ asked. ground arith,
      λ asked. ground arith,
    )

abbrev RoundTrip : Chars → Type 0
RoundTrip reg =
    (halves : List Chars)
    → can_split_reg reg 2 ≡ some halves
    → can_join_regs halves ≡ (some reg, true)

ba_RoundTrip : RoundTrip (chars "ba")
unfolding can_split_reg can_join_regs is_reg_pair register_base_name
ba_RoundTrip halves h = let same : chars "b" ∷ chars "a" ∷ [] ≡ halves = cc in rw (← same) refl

bc_RoundTrip : RoundTrip (chars "bc")
unfolding can_split_reg can_join_regs is_reg_pair register_base_name
bc_RoundTrip halves h = let same : chars "b" ∷ chars "c" ∷ [] ≡ halves = cc in rw (← same) refl

de_RoundTrip : RoundTrip (chars "de")
unfolding can_split_reg can_join_regs is_reg_pair register_base_name
de_RoundTrip halves h = let same : chars "d" ∷ chars "e" ∷ [] ≡ halves = cc in rw (← same) refl

hl_RoundTrip : RoundTrip (chars "hl")
unfolding can_split_reg can_join_regs is_reg_pair register_base_name
hl_RoundTrip halves h = let same : chars "h" ∷ chars "l" ∷ [] ≡ halves = cc in rw (← same) refl

named-RoundTrip : (reg name : Chars) → RoundTrip name → str_eq reg name ≡ true → RoundTrip reg
named-RoundTrip reg name r h = subst RoundTrip (sym (str_eq-eq reg name h)) r

-- The halves into which a pair is split join to the pair again.
pub split_join :
    (reg : Chars) (halves : List Chars)
    → can_split_reg reg 2 ≡ some halves
    → can_join_regs halves ≡ (some reg, true)
unfolding can_split_reg
split_join reg halves h = elim (Bool-cases (str_eq reg (chars "ba"))) [
  | inl is_ba ↦ named-RoundTrip reg (chars "ba") ba_RoundTrip is_ba halves h
  | inr not_ba ↦ elim (Bool-cases (str_eq reg (chars "bc"))) [
    | inl is_bc ↦ named-RoundTrip reg (chars "bc") bc_RoundTrip is_bc halves h
    | inr not_bc ↦ elim (Bool-cases (str_eq reg (chars "de"))) [
      | inl is_de ↦ named-RoundTrip reg (chars "de") de_RoundTrip is_de halves h
      | inr not_de ↦ elim (Bool-cases (str_eq reg (chars "hl"))) [
        | inl is_hl ↦ named-RoundTrip reg (chars "hl") hl_RoundTrip is_hl halves h
        | inr not_hl ↦
            let none_split = rw (can_split_reg, not_ba, not_bc, not_de, not_hl) at h in cc
      ]
    ]
  ]
]
