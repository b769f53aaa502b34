-- ===== src/As88/Branch/Run.antt =====
-- How the S1C88 goes through branch code. A displacement counts from its own last byte, so a hop by `d`
-- skips `d - 1` bytes behind it. The linker fills an R_PCR field with the address of its expression
-- less the address behind the field, so the chip lands one byte in front of the expression: at the
-- operand itself where 1 was added to it. A branch goes to the bank in NB, and one that is not taken
-- sets NB back (docs/s1c88/instruction-set.md, JRS, JRL, CARS and CARL).
use sdcc.Common.{
  ℕ, zero, suc, ◌+◌, ◌-◌, ◌&&◌, Bool, true, List, [], ◌∷◌, leb, ltb, ◌==◌, if◌then◌else◌,
}
use sdcc.As88.Emit.{
  Source, based, past, Mode, pcr, Item, outab, outrb, outrw, outr1be, outchk, xerr, origin,
}
use sdcc.As88.Branch.Flags.{Flags, on_chip, basic_on_chip}

-- What NB holds: the bank that the code runs in, or that of an operand.
pub data Bank : Type 0 where
  own : Bank
  bank_of : Source → Bank

-- Where control goes: behind the code, with NB as it was, to an operand's very address in a bank, or
-- to no instruction that is known.
pub data Outcome : Type 0 where
  falls lost : Outcome
  jumps calls : Source → Bank → Outcome

-- What was added to the operand's address.
abbrev pub bias : Source → ℕ
bias (based s) = bias s
bias (past s) = suc (bias s)
bias s = 0

-- Whether the linker sees a reference, where `seen` says it of the operand: `mchpcr` sees to it.
abbrev pub is_seen : Bool → Source → Bool
is_seen seen (based s) = true
is_seen seen (past s) = is_seen seen s
is_seen seen s = seen

-- A branch by the field that the linker fills.
abbrev pub land : (Source → Bank → Outcome) → Bool → Source → Mode → Bank → Outcome
land go seen s pcr nb = if is_seen seen s && bias s == 1 then go (origin s) nb else lost
land go seen s _ nb = lost

-- What goes into the image.
abbrev pub code_items : List Item → List Item
code_items [] = []
code_items (xerr ∷ items) = code_items items
code_items (outchk n m ∷ items) = code_items items
code_items (outab n ∷ items) = outab n ∷ code_items items
code_items (outrb s m ∷ items) = outrb s m ∷ code_items items
code_items (outrw s m ∷ items) = outrw s m ∷ code_items items
code_items (outr1be s ∷ items) = outr1be s ∷ code_items items

abbrev within : ℕ → ℕ → Bool
within first op = leb first op && ltb op (first + 4)

-- The bank byte that the linker fills is that of the operand, to which nothing may be added.
abbrev load_bank : Bool → Source → (Bank → Outcome) → Outcome
load_bank seen s rest = if is_seen seen s && bias s == 0 then rest (bank_of (origin s)) else lost

-- A hop stays in the code only if NB is the bank of the code.
abbrev stay : Bank → Outcome → Outcome
stay own o = o
stay (bank_of s) o = lost

-- The truth value says whether the linker sees a reference in the operand; the number counts the bytes
-- to skip.
abbrev pub run : Flags → Bool → Bank → ℕ → List Item → Outcome
run f seen nb zero [] = stay nb falls
run f seen nb (suc k) [] = lost
run f seen nb (suc k) (outab n ∷ items) = run f seen nb k items
run f seen nb (suc k) (outrb s m ∷ items) = run f seen nb k items
run f seen nb (suc k) (outr1be s ∷ items) = run f seen nb k items
run f seen nb (suc (suc k)) (outrw s m ∷ items) = run f seen nb k items
run f seen nb zero (outab p ∷ outab q ∷ outab d ∷ items) =
    if (p == 0xCE) && (leb 0xE0 q && ltb q 0xF0)
    then if on_chip (q - 0xE0) f
      then stay nb (run f seen own (d - 1) items)
      else run f seen own zero items
    else lost
run f seen nb zero (outab p ∷ outab q ∷ outr1be s ∷ items) =
    if (p == 0xCE) && (q == 0xC4) then load_bank seen s (λ nb'. run f seen nb' zero items) else lost
run f seen nb zero (outab p ∷ outab q ∷ outrb s m ∷ items) =
    if (p == 0xCE) && leb 0xF0 q
    then if on_chip (q - 0xF0) f then land calls seen s m nb else run f seen own zero items
    else if (p == 0xCE) && leb 0xE0 q
    then if on_chip (q - 0xE0) f then land jumps seen s m nb else run f seen own zero items
    else lost
run f seen nb zero (outab p ∷ outrb s m ∷ items) =
    if p == 0xF1
    then land jumps seen s m nb
    else if p == 0xF0
    then land calls seen s m nb
    else if within 0xE4 p
    then if basic_on_chip (p - 0xE4) f then land jumps seen s m nb else run f seen own zero items
    else if within 0xE0 p
    then if basic_on_chip (p - 0xE0) f then land calls seen s m nb else run f seen own zero items
    else lost
run f seen nb zero (outab p ∷ outrw s m ∷ items) =
    if p == 0xF3
    then land jumps seen s m nb
    else if p == 0xF2
    then land calls seen s m nb
    else if within 0xEC p
    then if basic_on_chip (p - 0xEC) f then land jumps seen s m nb else run f seen own zero items
    else if within 0xE8 p
    then if basic_on_chip (p - 0xE8) f then land calls seen s m nb else run f seen own zero items
    else lost
run f _ _ _ _ = lost
