-- ===== src/Peep/NotUsed.antt =====
-- src/s1c88/peep.c: s1c88notUsed and s1c88notUsedFrom. The answer none stands for a scan that runs out of
-- fuel.
pub mod Exact
use sdcc.Common.{
  ℕ, ◌+◌, Bool, true, false, not, ◌&&◌, ◌||◌, List, [], ◌∷◌, Option, none, some, ◌==◌,
  if◌then◌else◌, length, drop, take, Chars, chars, str_eq, starts,
}
use sdcc.Peep.Text.{text_at}
use sdcc.Peep.Names.{is_one_of, is_reg, is_u_reg, is_reg_pair}
use sdcc.Peep.Env.{Env, Line}
use sdcc.Peep.Scan.{scan_from, find_line}

abbrev flags : List Chars
flags = chars "zf" ∷ chars "cf" ∷ chars "nf" ∷ chars "vf" ∷ []

-- The names that are asked for one after the other; none for one that cannot be asked for.
unfoldable pub parts : Bool → Chars → Option (List Chars)
unfolding is_reg_pair is_reg is_u_reg
parts iy_reserved what =
    if str_eq what (chars "af")
    then some (chars "a" ∷ flags)
    else if str_eq what (chars "f")
    then some flags
    else if str_eq what (chars "iy")
    then if iy_reserved then none else some (chars "iyl" ∷ chars "iyh" ∷ [])
    else if str_eq what (chars "ix")
    then some (chars "ixl" ∷ chars "ixh" ∷ [])
    else if is_reg_pair what
    then some (drop 1 what ∷ take 1 what ∷ [])
    else if str_eq what (chars "lf")
    then some (chars "vf" ∷ [])
    else if is_reg what
        || is_u_reg what
        || str_eq what (chars "sp")
        || str_eq (drop 1 what) (chars "f")
    then some (what ∷ [])
    else none

module _ (env : Env) (code : List Line) where
  unfoldable pub all_unused : List Chars → ℕ → Option Bool
  all_unused [] end_pl = some true
  all_unused (what ∷ whats) end_pl = elim (scan_from env code what end_pl) [
    | none ↦ none
    | some false ↦ some false
    | some true ↦ all_unused whats end_pl
  ]

  unfoldable pub not_used : Bool → Chars → ℕ → Option Bool
  not_used iy_reserved what end_pl = elim (parts iy_reserved what) [
    | none ↦ some false
    | some whats ↦ all_unused whats end_pl
  ]

  abbrev is_label_from : Chars → Line → Bool
  is_label_from label line = line.is_label && starts (text_at line.text) label

  unfoldable pub not_used_from : Bool → Chars → Chars → Option Bool
  unfolding not_used
  not_used_from iy_reserved what label = elim (find_line (is_label_from label) code 0) [
    | none ↦ some false
    | some cpl ↦ not_used iy_reserved what cpl
  ]
