-- ===== src/As88/Manual/Conforms.antt =====
-- What it means that a machine code agrees with the operation code map, and a test for it.
use sdcc.Common.{
  ℕ, ◌+◌, ◌≡◌, ◌⊎◌, inl, inr, refl, Bool, true, false, ◌&&◌, ◌||◌, List, [], ◌∷◌, ◌++◌, ◌==◌, zero,
  suc, ltb, get_or, length, arith, if◌then◌else◌, ap, subst, Bool-cases,
}
use sdcc.As88.Operand.{Operand, s_immed, s_idxix, s_idxiy, s_indm, s_idxsp, s_brll, s_user}
use sdcc.As88.Emit.{
  Source, e1, e2, based, past, Item, outab, outr1be, outchk, outrb, outrw, xerr, opcodes, fields,
  size, is_error, no_code,
}
use sdcc.As88.Machine.{Instr, inherent, unary, binary}
use sdcc.As88.Manual.{Row, row, other}
use sdcc.As88.Manual.Decode.{manual}
use sdcc.As88.Manual.Same.{operands, index, operands-index, same, same-eq}

-- The operands whose expression the machine code holds, in order.
abbrev has_field : Operand → Bool
has_field s_immed = true
has_field s_idxix = true
has_field s_idxiy = true
has_field s_indm = true
has_field s_idxsp = true
has_field s_brll = true
has_field s_user = true
has_field _ = false

abbrev field : Source → Operand → List Source
field e d = if has_field d then e ∷ [] else []

abbrev pub operand_fields : Instr → List Source
operand_fields (inherent o) = []
operand_fields (unary o d) = field e1 d
operand_fields (binary o d s) = field e1 d ++ field e2 s

-- The map gives the instruction back from the code, the operands that have an expression are
-- written once each in order, and they take the bytes the map grants.
abbrev pub Codes : Instr → List Item → Type 0
Codes i items =
    (n : ℕ) × (manual (opcodes items) ≡ row i n)
    × (size items ≡ length (opcodes items) + n)
    × (fields items ≡ operand_fields i)

abbrev same_fields : List Source → List Source → Bool
same_fields [] [] = true
same_fields (e1 ∷ es) (e1 ∷ fs) = same_fields es fs
same_fields (e2 ∷ es) (e2 ∷ fs) = same_fields es fs
same_fields _ _ = false

abbrev accepted : Row → Instr → List Item → Bool
accepted other i items = false
accepted (row j n) i items =
    same j i
    && ((size items == length (opcodes items) + n) && same_fields (fields items) (operand_fields i))

abbrev pub conforms : Instr → List Item → Bool
conforms i items = is_error items || accepted (manual (opcodes items)) i items

same_fields-eq : (es fs : List Source) → same_fields es fs ≡ true → es ≡ fs
same_fields-eq [] [] h = refl
same_fields-eq [] (f ∷ fs) h = cc
same_fields-eq (based e ∷ es) fs h = cc
same_fields-eq (past e ∷ es) fs h = cc
same_fields-eq (e1 ∷ es) (based f ∷ fs) h = cc
same_fields-eq (e1 ∷ es) (past f ∷ fs) h = cc
same_fields-eq (e2 ∷ es) (based f ∷ fs) h = cc
same_fields-eq (e2 ∷ es) (past f ∷ fs) h = cc
same_fields-eq (e1 ∷ es) [] h = cc
same_fields-eq (e2 ∷ es) [] h = cc
same_fields-eq (e1 ∷ es) (e1 ∷ fs) h = ap (λ xs. e1 ∷ xs) (same_fields-eq es fs h)
same_fields-eq (e1 ∷ es) (e2 ∷ fs) h = cc
same_fields-eq (e2 ∷ es) (e1 ∷ fs) h = cc
same_fields-eq (e2 ∷ es) (e2 ∷ fs) h = ap (λ xs. e2 ∷ xs) (same_fields-eq es fs h)

is_error-eq : (items : List Item) → is_error items ≡ true → items ≡ no_code
is_error-eq [] h = cc
is_error-eq (xerr ∷ []) h = refl
is_error-eq (xerr ∷ (x ∷ xs)) h = cc
is_error-eq (outab n ∷ xs) h = cc
is_error-eq (outr1be s ∷ xs) h = cc
is_error-eq (outchk n m ∷ xs) h = cc
is_error-eq (outrb s m ∷ xs) h = cc
is_error-eq (outrw s m ∷ xs) h = cc

accepted-Codes :
    (i : Instr) (items : List Item) (r : Row)
    → manual (opcodes items) ≡ r
    → accepted r i items ≡ true
    → Codes i items
accepted-Codes i items other e h = cc
accepted-Codes i items (row j n) e h = (
  n,
  rw e (ap (λ k. row k n) (same-eq j i (ground arith))),
  ground arith,
  same_fields-eq (fields items) (operand_fields i) (ground arith),
)

pub conforms-Codes :
    (i : Instr) (items : List Item) → conforms i items ≡ true → (items ≡ no_code) ⊎ Codes i items
conforms-Codes i items h = elim (Bool-cases (is_error items)) [
  | inl refused ↦ inl (is_error-eq items refused)
  | inr emitted ↦ inr (accepted-Codes i items (manual (opcodes items)) refl (rw emitted at h))
]

-- A test on all operands.
abbrev pub every : (Operand → Bool) → List Operand → Bool
every p [] = true
every p (x ∷ xs) = p x && every p xs

every-get_or :
    (p : Operand → Bool) (xs : List Operand) (i : ℕ)
    → every p xs ≡ true
    → ltb i (length xs) ≡ true
    → p (get_or xs i s_user) ≡ true
every-get_or p [] i h b = ground arith
every-get_or p (x ∷ xs) zero h b = ground arith
every-get_or p (x ∷ xs) (suc i) h b = every-get_or p xs i (ground arith) (ground arith)

pub for_all : (p : Operand → Bool) → every p operands ≡ true → (o : Operand) → p o ≡ true
for_all p h o =
    subst (λ x. p x ≡ true) (operands-index o).0
      (every-get_or p operands (index o) h (operands-index o).1)
