-- ===== src/As88/Operand.antt =====
-- sdas/as88/s1c88.h: registers and addressing modes. `addr` has read an operand when the encoder
-- looks at it; the mode stands for `t1` or `t2`, with the register code `v1` or `v2` where it has one.
use sdcc.Common.{ℕ}

pub data Reg8 : Type 0 where
  reg_a reg_b reg_l reg_h : Reg8

pub data Reg16 : Type 0 where
  ba hl ix iy sp : Reg16

pub data CReg : Type 0 where
  cr_br cr_sc cr_nb cr_ep cr_xp cr_yp cr_ip : CReg

pub data Pall : Type 0 where
  all_regs ale : Pall

abbrev pub reg8_code : Reg8 → ℕ
reg8_code reg_a = 0
reg8_code reg_b = 1
reg8_code reg_l = 2
reg8_code reg_h = 3

abbrev pub reg16_code : Reg16 → ℕ
reg16_code ba = 0
reg16_code hl = 1
reg16_code ix = 2
reg16_code iy = 3
reg16_code sp = 4

abbrev pub creg_code : CReg → ℕ
creg_code cr_br = 0
creg_code cr_sc = 1
creg_code cr_nb = 2
creg_code cr_ep = 3
creg_code cr_xp = 4
creg_code cr_yp = 5
creg_code cr_ip = 6

abbrev pub pall_code : Pall → ℕ
pall_code all_regs = 0
pall_code ale = 1

pub data Operand : Type 0 where
  s_immed s_indhl s_indix s_indiy s_idxix s_idxiy s_indm s_idxsp s_brll s_user : Operand
  s_r8 : Reg8 → Operand
  s_r16 : Reg16 → Operand
  s_creg : CReg → Operand
  s_pall : Pall → Operand
