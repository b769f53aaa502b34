-- ===== src/Romgen/Vars.antt =====
-- tools/romgen.c, `main`: the insertion sort of the variables before they are written. Of the array, the
-- sorted part is a list with its last record first, as the inner loop walks it.
pub mod Sorted
use sdcc.Common.{ℕ, Bool, ◌&&◌, ◌||◌, List, [], ◌∷◌, ltb, ◌==◌, if◌then◌else◌}

pub record EmitVar : Type 0 where
  pub scope : ℕ
  pub name : ℕ
  pub type : ℕ
  pub levelblock : ℕ
  pub loc_kind : ℕ
  pub loc : ℕ
  pub flags : ℕ

-- Whether the inner loop moves `y` up to make room for the key.
abbrev pub is_behind : EmitVar → EmitVar → Bool
is_behind y key = ltb key.scope y.scope || y.scope == key.scope && ltb key.name y.name

-- The inner loop, and the store of the key behind it.
abbrev pub insert_var : EmitVar → List EmitVar → List EmitVar
insert_var key [] = key ∷ []
insert_var key (y ∷ ys) =
    let moved = y ∷ insert_var key ys in if is_behind y key then moved else key ∷ (y ∷ ys)

-- The outer loop; the sorted part is what it has passed.
abbrev pub insert_all : List EmitVar → List EmitVar → List EmitVar
insert_all passed [] = passed
insert_all passed (key ∷ rest) = insert_all (insert_var key passed) rest

-- A list that has its last record first, from its first record on.
abbrev pub unwind : List EmitVar → List EmitVar → List EmitVar
unwind [] behind = behind
unwind (y ∷ ys) behind = unwind ys (y ∷ behind)

unfoldable pub sort_vars : List EmitVar → List EmitVar
sort_vars ev = unwind (insert_all [] ev) []
