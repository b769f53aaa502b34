-- ===== src/Romgen/Intern.antt =====
-- tools/romgen.c: the tables of types, files and structs, in which a record is looked up before it is
-- added.
pub mod Distinct
use sdcc.Common.{
  ℕ, suc, Bool, true, false, ◌&&◌, List, [], ◌∷◌, ◌++◌, Option, none, some, ◌==◌, if◌then◌else◌,
  length, Chars, str_eq,
}

pub record TypeRec : Type 0 where
  pub kind_flags : ℕ
  pub size : ℕ
  pub target : ℕ
  pub extra : ℕ

abbrev pub same_type : TypeRec → TypeRec → Bool
same_type x y =
    x.kind_flags == y.kind_flags && x.size == y.size && x.target == y.target && x.extra == y.extra

abbrev no_ref : ℕ
no_ref = 0xFFFFFFFF

-- The first index, counted from `i`, at which the test holds.
abbrev pub index_from {ℓ} : {A : Type ℓ} → (A → Bool) → List A → ℕ → Option ℕ
index_from p [] i = none
index_from p (x ∷ xs) i = if p x then some i else index_from p xs (suc i)

abbrev pub add_missing {ℓ} : {A : Type ℓ} → Option ℕ → List A → A → List A × ℕ
add_missing (some i) xs x = (xs, i)
add_missing none xs x = (xs ++ x ∷ [], length xs)

-- The table, and the record's index.
unfoldable pub type_intern : List TypeRec → TypeRec → List TypeRec × ℕ
type_intern types x = add_missing (index_from (λ y. same_type y x) types 0) types x

unfoldable pub file_id : List Chars → Chars → List Chars × ℕ
file_id files name = add_missing (index_from (λ file. str_eq file name) files 0) files name

unfoldable pub struct_ordinal : List Chars → Chars → ℕ
struct_ordinal names name = elim (index_from (λ n. str_eq n name) names 0) [
  | none ↦ no_ref
  | some i ↦ i
]
