-- ===== src/As88/Lexer/Rows.antt =====
-- sdas/as88/s1c88adr.c: `admode` takes the first row of a table whose name stands at the input.
use sdcc.Common.{ℕ, ◌≡◌, refl, ap, Bool, Option, none, some, List, [], ◌∷◌, ◌++◌, ◌⊎◌, inl, inr}
use sdcc.As88.Lexer.{Text, AdSym, srch, search_rows, admode}
use sdcc.As88.Lexer.Matches.{IsText, Matches, srch_iff}

module _ (ccase : ℕ → ℕ) (ltr16 : ℕ → Bool) where
  -- No row's name stands there.
  abbrev pub NoRow : List AdSym → Text → Type 0
  NoRow [] ip = Unit {0}
  NoRow (row ∷ rows) ip = ((rest : Text) → ¬ Matches ccase ltr16 ip row.a_str rest) × NoRow rows ip

  abbrev pub AllText : List AdSym → Type 0
  AllText [] = Unit {0}
  AllText (row ∷ rows) = IsText ccase ltr16 row.a_str × AllText rows

  -- Nothing is found, or the first row whose name stands there.
  abbrev pub Finds : List AdSym → Text → Option (ℕ × Text) → Type 0
  Finds rows ip none = NoRow rows ip
  Finds rows ip (some found) =
      (before : List AdSym) × (row : AdSym) × (after : List AdSym) × (rows
        ≡ before ++ (row ∷ after))
      × NoRow before ip
      × (row.a_val ≡ found.0)
      × Matches ccase ltr16 ip row.a_str found.1

  Option-cases : (o : Option Text) → (o ≡ none) ⊎ ((rest : Text) × (o ≡ some rest))
  Option-cases none = inl refl
  Option-cases (some rest) = inr (rest, refl)

  later :
      (row : AdSym) (rows : List AdSym) (ip : Text) (out : Option (ℕ × Text))
      → ((rest : Text) → ¬ Matches ccase ltr16 ip row.a_str rest)
      → Finds rows ip out
      → Finds (row ∷ rows) ip out
  later row rows ip none no_match f = (no_match, f)
  later row rows ip (some found) no_match (before, hit, after, e, free, val, m) =
      (row ∷ before, hit, after, ap (λ xs. row ∷ xs) e, (no_match, free), val, m)

  search_rows-Finds :
      (rows : List AdSym) (ip : Text)
      → IsText ccase ltr16 ip
      → AllText rows
      → Finds rows ip (search_rows ccase ltr16 rows ip)
  unfolding search_rows
  search_rows-Finds [] ip ti ts = tt
  search_rows-Finds (row ∷ rows) ip ti ts = elim (Option-cases (srch ccase ltr16 ip row.a_str)) [
    | inl missing ↦ rw missing (
        later row rows ip _
          (λ rest m. let e = (srch_iff ccase ltr16 ip row.a_str rest ti ts.0).1 m in absurd (cc))
          (search_rows-Finds rows ip ti ts.1))
    | inr (rest, found) ↦
        rw found
          ([], row, rows, refl, tt, refl, (srch_iff ccase ltr16 ip row.a_str rest ti ts.0).0 found)
  ]

  -- `admode` finds the first row of a table whose name stands at the input behind the blanks, with
  -- its value and the input behind the name, or nothing where no row's name stands there.
  -- No character may be one that `ccase` takes for the end of a string.
  pub admode-Finds :
      (skip_blanks : Text → Text) (rows : List AdSym) (ip : Text)
      → IsText ccase ltr16 (skip_blanks ip)
      → AllText rows
      → Finds rows (skip_blanks ip) (admode ccase ltr16 skip_blanks rows ip)
  unfolding admode
  admode-Finds skip_blanks rows ip ti ts = search_rows-Finds rows (skip_blanks ip) ti ts
