-- ===== src/As88/Lexer.antt =====
-- sdas/as88/s1c88adr.c, `srch` and `admode`: a name of a table is looked for at the input pointer.
-- A string is the list of its characters, none of which is 0.
pub mod Matches
pub mod Rows
pub mod Apart
use sdcc.Common.{
  ℕ, ◌%◌, Bool, true, false, not, ◌&&◌, Option, none, some, List, [], ◌∷◌, ◌==◌, if◌then◌else◌,
}

abbrev pub Text : Type 0
Text = List ℕ

-- `*ptr`.
abbrev pub char_of : Text → ℕ
char_of [] = 0
char_of (c ∷ cs) = c

abbrev at_end : Text → Bool
at_end [] = true
at_end (c ∷ cs) = false

-- A row of a table: `a_str` and `a_val`, without the bit that says that it is present.
pub record AdSym : Type 0 where
  pub a_str : Text
  pub a_val : ℕ

-- The tables `ccase` and `ctype` (for LTR16), and `unget (getnb ())`, which moves past blanks.
abbrev pub folded : (ℕ → ℕ) → ℕ → ℕ
folded ccase c = ccase (c % 128)

module _ (ccase : ℕ → ℕ) (ltr16 : ℕ → Bool) where
  -- Behind the loop of `srch`: where the input pointer is left, if the name was found.
  unfoldable pub srch_end : Text → Text → Option Text
  srch_end ptr str =
      if folded ccase (char_of ptr) == folded ccase (char_of str)
      then some ptr
      else if at_end str && not (ltr16 (char_of ptr % 128))
      then some ptr
      else none

  unfoldable pub srch : Text → Text → Option Text
  srch [] str = srch_end [] str
  srch (p ∷ ptr) [] = srch_end (p ∷ ptr) []
  srch (p ∷ ptr) (s ∷ str) =
      let further = srch ptr str in
      if folded ccase p == folded ccase s then further else srch_end (p ∷ ptr) (s ∷ str)

  abbrev or_next : Option Text → ℕ → Option (ℕ × Text) → Option (ℕ × Text)
  or_next none val later = later
  or_next (some rest) val later = some (val, rest)

  -- The loop of `admode` over the rows.
  unfoldable pub search_rows : List AdSym → Text → Option (ℕ × Text)
  search_rows [] ip = none
  search_rows (row ∷ rows) ip = or_next (srch ip row.a_str) row.a_val (search_rows rows ip)

  -- The row's value and the input behind it; where there is none, the input stays.
  unfoldable pub admode : (Text → Text) → List AdSym → Text → Option (ℕ × Text)
  admode skip_blanks sp ip = search_rows sp (skip_blanks ip)
