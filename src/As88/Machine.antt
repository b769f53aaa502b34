-- ===== src/As88/Machine.antt =====
-- sdas/as88/s1c88mch.c, `machine`, and the rows of sdas/as88/s1c88pst.c: the instructions that take
-- no branch target, and the dispatch on their class.
use sdcc.Common.{ℕ, List, [], ◌∷◌}
use sdcc.As88.Operand.{Operand}
use sdcc.As88.Emit.{Item, outab}
use sdcc.As88.Load.{encode_ld}
use sdcc.As88.Alu.{AluOp, encode_alu}
use sdcc.As88.Other.{
  encode_step, encode_push, encode_pop, encode_ex, encode_jp, encode_int, encode_call, encode_rot,
  encode_swap, encode_bit,
}

pub data Inherent : Type 0 where
  ret rete rets pack upck nop mlt div sep halt slp : Inherent

pub data Rotation : Type 0 where
  sla sll sra srl rl rlc rr rrc cpl neg : Rotation

pub data Unary : Type 0 where
  s_inc s_dec s_push s_pop s_jp s_int s_call s_swap : Unary
  s_rot : Rotation → Unary

pub data Binary : Type 0 where
  s_ld s_ex s_bit : Binary
  s_alu : AluOp → Binary

pub data Instr : Type 0 where
  inherent : Inherent → Instr
  unary : Unary → Operand → Instr
  binary : Binary → Operand → Operand → Instr

abbrev pub rot_base : Rotation → ℕ
rot_base sla = 0x80
rot_base sll = 0x84
rot_base sra = 0x88
rot_base srl = 0x8C
rot_base rl = 0x90
rot_base rlc = 0x94
rot_base rr = 0x98
rot_base rrc = 0x9C
rot_base cpl = 0xA0
rot_base neg = 0xA4

-- S_INH emits its code alone, S_INHE behind CE.
unfoldable pub encode_inherent : Inherent → List Item
encode_inherent ret = outab 0xF8 ∷ []
encode_inherent rete = outab 0xF9 ∷ []
encode_inherent rets = outab 0xFA ∷ []
encode_inherent pack = outab 0xDE ∷ []
encode_inherent upck = outab 0xDF ∷ []
encode_inherent nop = outab 0xFF ∷ []
encode_inherent mlt = outab 0xCE ∷ outab 0xD8 ∷ []
encode_inherent div = outab 0xCE ∷ outab 0xD9 ∷ []
encode_inherent sep = outab 0xCE ∷ outab 0xA8 ∷ []
encode_inherent halt = outab 0xCE ∷ outab 0xAE ∷ []
encode_inherent slp = outab 0xCE ∷ outab 0xAF ∷ []

unfoldable pub machine : Instr → List Item
machine (inherent i) = encode_inherent i
machine (unary s_inc d) = encode_step 0x80 d
machine (unary s_dec d) = encode_step 0x88 d
machine (unary s_push d) = encode_push d
machine (unary s_pop d) = encode_pop d
machine (unary s_jp d) = encode_jp d
machine (unary s_int d) = encode_int d
machine (unary s_call d) = encode_call d
machine (unary s_swap d) = encode_swap d
machine (unary (s_rot o) d) = encode_rot (rot_base o) d
machine (binary s_ld d s) = encode_ld d s
machine (binary s_ex d s) = encode_ex d s
machine (binary s_bit d s) = encode_bit d s
machine (binary (s_alu o) d s) = encode_alu o d s
