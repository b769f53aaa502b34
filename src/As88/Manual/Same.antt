-- ===== src/As88/Manual/Same.antt =====
-- A test for equality of instructions, and all operands in a list.
use sdcc.Common.{
  ℕ, ◌≡◌, refl, Bool, true, false, ◌&&◌, List, [], ◌∷◌, ◌==◌, ◌+◌, ◌-◌, ◌/◌, get_or, ltb, length,
  sym, ap, ap₂, ◌∙◌, arith,
}
use sdcc.As88.Operand.{
  reg_a, reg_b, reg_l, reg_h, ba, hl, ix, iy, sp, cr_br, cr_sc, cr_nb, cr_ep, cr_xp, cr_yp, cr_ip,
  all_regs, ale, reg8_code, reg16_code, creg_code, pall_code, Operand, s_immed, s_indhl, s_indix,
  s_indiy, s_idxix, s_idxiy, s_indm, s_idxsp, s_brll, s_user, s_r8, s_r16, s_creg, s_pall,
}
use sdcc.As88.Alu.{s_add, s_adc, s_sub, s_sbc, s_and, s_or, s_cp, s_xor, alu_base}
use sdcc.As88.Machine.{
  Inherent, ret, rete, rets, pack, upck, nop, mlt, div, sep, halt, slp, sla, sll, sra, srl, rl, rlc,
  rr, rrc, cpl, neg, Unary, s_inc, s_dec, s_push, s_pop, s_jp, s_int, s_call, s_swap, s_rot, Binary,
  s_ld, s_ex, s_bit, s_alu, Instr, inherent, unary, binary, rot_base,
}

abbrev pub operands : List Operand
operands =
    s_immed
    ∷ s_indhl
    ∷ s_indix
    ∷ s_indiy
    ∷ s_idxix
    ∷ s_idxiy
    ∷ s_indm
    ∷ s_idxsp
    ∷ s_brll
    ∷ s_user
    ∷ s_r8 reg_a
    ∷ s_r8 reg_b
    ∷ s_r8 reg_l
    ∷ s_r8 reg_h
    ∷ s_r16 ba
    ∷ s_r16 hl
    ∷ s_r16 ix
    ∷ s_r16 iy
    ∷ s_r16 sp
    ∷ s_creg cr_br
    ∷ s_creg cr_sc
    ∷ s_creg cr_nb
    ∷ s_creg cr_ep
    ∷ s_creg cr_xp
    ∷ s_creg cr_yp
    ∷ s_creg cr_ip
    ∷ s_pall all_regs
    ∷ s_pall ale
    ∷ []

abbrev pub index : Operand → ℕ
index s_immed = 0
index s_indhl = 1
index s_indix = 2
index s_indiy = 3
index s_idxix = 4
index s_idxiy = 5
index s_indm = 6
index s_idxsp = 7
index s_brll = 8
index s_user = 9
index (s_r8 r) = 10 + reg8_code r
index (s_r16 r) = 14 + reg16_code r
index (s_creg c) = 19 + creg_code c
index (s_pall p) = 26 + pall_code p

-- Each operand stands in the list at its index.
pub operands-index :
    (o : Operand)
    → (get_or operands (index o) s_user ≡ o) × (ltb (index o) (length operands) ≡ true)
operands-index s_immed = (refl, refl)
operands-index s_indhl = (refl, refl)
operands-index s_indix = (refl, refl)
operands-index s_indiy = (refl, refl)
operands-index s_idxix = (refl, refl)
operands-index s_idxiy = (refl, refl)
operands-index s_indm = (refl, refl)
operands-index s_idxsp = (refl, refl)
operands-index s_brll = (refl, refl)
operands-index s_user = (refl, refl)
operands-index (s_r8 reg_a) = (refl, refl)
operands-index (s_r8 reg_b) = (refl, refl)
operands-index (s_r8 reg_l) = (refl, refl)
operands-index (s_r8 reg_h) = (refl, refl)
operands-index (s_r16 ba) = (refl, refl)
operands-index (s_r16 hl) = (refl, refl)
operands-index (s_r16 ix) = (refl, refl)
operands-index (s_r16 iy) = (refl, refl)
operands-index (s_r16 sp) = (refl, refl)
operands-index (s_creg cr_br) = (refl, refl)
operands-index (s_creg cr_sc) = (refl, refl)
operands-index (s_creg cr_nb) = (refl, refl)
operands-index (s_creg cr_ep) = (refl, refl)
operands-index (s_creg cr_xp) = (refl, refl)
operands-index (s_creg cr_yp) = (refl, refl)
operands-index (s_creg cr_ip) = (refl, refl)
operands-index (s_pall all_regs) = (refl, refl)
operands-index (s_pall ale) = (refl, refl)

abbrev inherents : List Inherent
inherents = ret ∷ rete ∷ rets ∷ pack ∷ upck ∷ nop ∷ mlt ∷ div ∷ sep ∷ halt ∷ slp ∷ []

abbrev inherent_index : Inherent → ℕ
inherent_index ret = 0
inherent_index rete = 1
inherent_index rets = 2
inherent_index pack = 3
inherent_index upck = 4
inherent_index nop = 5
inherent_index mlt = 6
inherent_index div = 7
inherent_index sep = 8
inherent_index halt = 9
inherent_index slp = 10

inherents-index : (o : Inherent) → get_or inherents (inherent_index o) nop ≡ o
inherents-index ret = refl
inherents-index rete = refl
inherents-index rets = refl
inherents-index pack = refl
inherents-index upck = refl
inherents-index nop = refl
inherents-index mlt = refl
inherents-index div = refl
inherents-index sep = refl
inherents-index halt = refl
inherents-index slp = refl

abbrev unaries : List Unary
unaries =
    s_inc
    ∷ s_dec
    ∷ s_push
    ∷ s_pop
    ∷ s_jp
    ∷ s_int
    ∷ s_call
    ∷ s_swap
    ∷ s_rot sla
    ∷ s_rot sll
    ∷ s_rot sra
    ∷ s_rot srl
    ∷ s_rot rl
    ∷ s_rot rlc
    ∷ s_rot rr
    ∷ s_rot rrc
    ∷ s_rot cpl
    ∷ s_rot neg
    ∷ []

abbrev unary_index : Unary → ℕ
unary_index s_inc = 0
unary_index s_dec = 1
unary_index s_push = 2
unary_index s_pop = 3
unary_index s_jp = 4
unary_index s_int = 5
unary_index s_call = 6
unary_index s_swap = 7
unary_index (s_rot o) = 8 + (rot_base o - 0x80) / 4

unaries-index : (o : Unary) → get_or unaries (unary_index o) s_inc ≡ o
unaries-index s_inc = refl
unaries-index s_dec = refl
unaries-index s_push = refl
unaries-index s_pop = refl
unaries-index s_jp = refl
unaries-index s_int = refl
unaries-index s_call = refl
unaries-index s_swap = refl
unaries-index (s_rot sla) = refl
unaries-index (s_rot sll) = refl
unaries-index (s_rot sra) = refl
unaries-index (s_rot srl) = refl
unaries-index (s_rot rl) = refl
unaries-index (s_rot rlc) = refl
unaries-index (s_rot rr) = refl
unaries-index (s_rot rrc) = refl
unaries-index (s_rot cpl) = refl
unaries-index (s_rot neg) = refl

abbrev binaries : List Binary
binaries =
    s_ld
    ∷ s_ex
    ∷ s_bit
    ∷ s_alu s_add
    ∷ s_alu s_adc
    ∷ s_alu s_sub
    ∷ s_alu s_sbc
    ∷ s_alu s_and
    ∷ s_alu s_or
    ∷ s_alu s_cp
    ∷ s_alu s_xor
    ∷ []

abbrev binary_index : Binary → ℕ
binary_index s_ld = 0
binary_index s_ex = 1
binary_index s_bit = 2
binary_index (s_alu o) = 3 + alu_base o / 8

binaries-index : (o : Binary) → get_or binaries (binary_index o) s_ld ≡ o
binaries-index s_ld = refl
binaries-index s_ex = refl
binaries-index s_bit = refl
binaries-index (s_alu s_add) = refl
binaries-index (s_alu s_adc) = refl
binaries-index (s_alu s_sub) = refl
binaries-index (s_alu s_sbc) = refl
binaries-index (s_alu s_and) = refl
binaries-index (s_alu s_or) = refl
binaries-index (s_alu s_cp) = refl
binaries-index (s_alu s_xor) = refl

abbrev pub same : Instr → Instr → Bool
same (inherent x) (inherent y) = inherent_index x == inherent_index y
same (unary x d) (unary y e) = (unary_index x == unary_index y) && (index d == index e)
same (binary x d s) (binary y e t) =
    (binary_index x == binary_index y) && ((index d == index e) && (index s == index t))
same _ _ = false

-- Equal indices, equal values.
inherent-eq : (x y : Inherent) → inherent_index x ≡ inherent_index y → x ≡ y
inherent-eq x y e = sym (inherents-index x) ∙ ap (λ n. get_or inherents n nop) e ∙ inherents-index y

unary-eq : (x y : Unary) → unary_index x ≡ unary_index y → x ≡ y
unary-eq x y e = sym (unaries-index x) ∙ ap (λ n. get_or unaries n s_inc) e ∙ unaries-index y

binary-eq : (x y : Binary) → binary_index x ≡ binary_index y → x ≡ y
binary-eq x y e = sym (binaries-index x) ∙ ap (λ n. get_or binaries n s_ld) e ∙ binaries-index y

operand-eq : (x y : Operand) → index x ≡ index y → x ≡ y
operand-eq x y e =
    sym (operands-index x).0 ∙ ap (λ n. get_or operands n s_user) e ∙ (operands-index y).0

-- The test answers yes only on equal instructions.
pub same-eq : (i j : Instr) → same i j ≡ true → i ≡ j
same-eq (inherent x) (inherent y) h = ap inherent (inherent-eq x y (ground arith))
same-eq (inherent x) (unary y e) h = cc
same-eq (inherent x) (binary y e t) h = cc
same-eq (unary x d) (inherent y) h = cc
same-eq (unary x d) (unary y e) h =
    ap₂ unary (unary-eq x y (ground arith)) (operand-eq d e (ground arith))
same-eq (unary x d) (binary y e t) h = cc
same-eq (binary x d s) (inherent y) h = cc
same-eq (binary x d s) (unary y e) h = cc
same-eq (binary x d s) (binary y e t) h =
    rw (binary-eq x y (ground arith), operand-eq d e (ground arith), operand-eq s t (ground arith))
      refl
