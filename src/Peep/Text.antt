-- ===== src/Peep/Text.antt =====
-- src/s1c88/peep.c: ISINST, argCont and the operands of a line. A line is its text.
use sdcc.Common.{
  ℕ, Bool, true, false, not, ◌&&◌, ◌||◌, List, [], ◌∷◌, Option, none, some, ◌==◌, ltb,
  if◌then◌else◌, length, drop, Chars, char_at_start, is_empty, is_space, starts_nocase, strchr,
  skip_spaces,
}

-- ISINST: the mnemonic, and behind it a blank or the end of the line.
abbrev pub isinst : Chars → Chars → Bool
isinst l i =
    let rest = drop (length i) l in
    starts_nocase l i && (is_empty rest || is_space (char_at_start rest))

abbrev pub isinst_any : Chars → List Chars → Bool
isinst_any l [] = false
isinst_any l (i ∷ is) = isinst l i || isinst_any l is

abbrev skip_separators : Chars → Chars
skip_separators [] = []
skip_separators (c ∷ s) = if is_space c || c == b',' then skip_separators s else c ∷ s

-- The two ways of a second character that is not a register in parentheses.
abbrev is_plain_start : Chars → Bool
is_plain_start a = char_at_start a == b'#' || char_at_start a == b'_'

abbrev is_long_indirect : Chars → Bool
is_long_indirect (c ∷ d ∷ e ∷ rest) =
    c == b'(' && (not (e == b')') && not (char_at_start rest == b')'))
is_long_indirect _ = false

-- How much of the string is left at a pointer that may be NULL.
abbrev pub left_at : Option Chars → ℕ
left_at none = 0
left_at (some p) = length p

-- `found && found < end`: both point into the same string.
abbrev found_before : Option Chars → ℕ → Bool
found_before none end = false
found_before (some p) end = ltb end (length p)

-- `StrStr` belongs to SDCC.
module _ (str_str : Chars → Chars → Option Chars) where
  -- Whether reading the argument reads the register.
  unfoldable pub arg_cont : Chars → Chars → Bool
  arg_cont arg what =
      let a = skip_separators arg in
      let b = if char_at_start a == b'(' then drop 1 a else a in
      if is_plain_start a || is_long_indirect a || is_plain_start b
      then false
      else found_before (str_str b what) (left_at (strchr b b','))

-- `op1start` and `op2start` in s1c88instructionSize; NULL is none.
abbrev skip_word : Chars → Chars
skip_word [] = []
skip_word (c ∷ s) = if is_space c then c ∷ s else skip_word s

abbrev non_empty : Chars → Option Chars
non_empty s = if is_empty s then none else some s

abbrev pub op1start : Chars → Option Chars
op1start line = non_empty (skip_spaces (skip_word line))

abbrev behind_comma : Option Chars → Option Chars
behind_comma none = none
behind_comma (some p) = non_empty (skip_spaces (drop 1 p))

abbrev pub op2start : Chars → Option Chars
op2start line = elim (op1start line) [ none ↦ none | some p ↦ behind_comma (strchr p b',') ]

-- What a pointer shows; the source reads through no pointer that is NULL where the line is an
-- instruction with the operands of its class.
abbrev pub text_at : Option Chars → Chars
text_at none = []
text_at (some p) = p

abbrev pub is_some {ℓ} : {A : Type ℓ} → Option A → Bool
is_some none = false
is_some (some p) = true
