-- ===== src/As88/Emit.antt =====
-- What sdas/as88/s1c88mch.c sends to the assembler's output: the calls of outab, outrb, outrw,
-- outr1be, outchk and xerr, in order. A relocated field names the operand whose expression it writes.
use sdcc.Common.{ℕ, ◌+◌, Bool, true, false, List, [], ◌∷◌}

-- `&e1` or `&e2`, as `addr` or `expr` left it, behind `mchpcr`, or with 1 added to `e_addr`.
pub data Source : Type 0 where
  e1 e2 : Source
  based past : Source → Source

-- The operand that an expression belongs to.
abbrev pub origin : Source → Source
origin (based s) = origin s
origin (past s) = origin s
origin s = s

-- No mode, `R_SGND` or `R_PCR`.
pub data Mode : Type 0 where
  plain signed pcr : Mode

pub data Item : Type 0 where
  outab : ℕ → Item
  outrb outrw : Source → Mode → Item
  -- The bank byte, which outr1be relocates in place by R_S1C88_BANK.
  outr1be : Source → Item
  outchk : ℕ → ℕ → Item
  xerr : Item

abbrev pub opcodes : List Item → List ℕ
opcodes [] = []
opcodes (outab n ∷ items) = n ∷ opcodes items
opcodes (outrb s m ∷ items) = opcodes items
opcodes (outrw s m ∷ items) = opcodes items
opcodes (outr1be s ∷ items) = opcodes items
opcodes (outchk n m ∷ items) = opcodes items
opcodes (xerr ∷ items) = opcodes items

-- Which operands are written, in order.
abbrev pub fields : List Item → List Source
fields [] = []
fields (outab n ∷ items) = fields items
fields (outrb s m ∷ items) = origin s ∷ fields items
fields (outrw s m ∷ items) = origin s ∷ fields items
fields (outr1be s ∷ items) = origin s ∷ fields items
fields (outchk n m ∷ items) = fields items
fields (xerr ∷ items) = fields items

-- How many bytes they take.
abbrev pub size : List Item → ℕ
size [] = 0
size (outab n ∷ items) = 1 + size items
size (outrb s m ∷ items) = 1 + size items
size (outrw s m ∷ items) = 2 + size items
size (outr1be s ∷ items) = 1 + size items
size (outchk n m ∷ items) = size items
size (xerr ∷ items) = size items

abbrev pub is_error : List Item → Bool
is_error (xerr ∷ []) = true
is_error _ = false

abbrev pub no_code : List Item
no_code = xerr ∷ []
