-- ===== src/Romgen/Vars/Sorted.antt =====
-- The variables that romgen writes are in order.
use sdcc.Common.{◌≡◌, inl, inr, Bool-cases, true, false, List, [], ◌∷◌, ◌++◌, arith, append-nil}
use mathlib.Core.List.{Perm, perm_middle}
use mathlib.Core.List.Perm
use sdcc.Romgen.Vars.{EmitVar, is_behind, insert_var, insert_all, unwind, sort_vars}

-- No record has its place behind the next one.
abbrev pub IsSorted : List EmitVar → Type 0
IsSorted [] = Unit
IsSorted (x ∷ []) = Unit
IsSorted (x ∷ (y ∷ ys)) = (is_behind x y ≡ false) × IsSorted (y ∷ ys)

-- The same for a list that has its last record first.
abbrev IsFalling : List EmitVar → Type 0
IsFalling [] = Unit
IsFalling (x ∷ []) = Unit
IsFalling (x ∷ (y ∷ ys)) = (is_behind y x ≡ false) × IsFalling (y ∷ ys)

behind-swap : (x y : EmitVar) → is_behind x y ≡ true → is_behind y x ≡ false
behind-swap x y h = ground arith

insert_below-IsFalling :
    (z key : EmitVar) (ys : List EmitVar)
    → is_behind key z ≡ false
    → IsFalling (z ∷ ys)
    → IsFalling (z ∷ insert_var key ys)
insert_below-IsFalling z key [] h f = (h, tt)
insert_below-IsFalling z key (y ∷ ys) h (zy, f) = elim (Bool-cases (is_behind y key)) [
  | inl up ↦ rw up (zy, insert_below-IsFalling y key ys (behind-swap y key up) f)
  | inr down ↦ rw down (h, (down, f))
]

insert_var-IsFalling :
    (key : EmitVar) (ys : List EmitVar) → IsFalling ys → IsFalling (insert_var key ys)
insert_var-IsFalling key [] f = tt
insert_var-IsFalling key (y ∷ ys) f = elim (Bool-cases (is_behind y key)) [
  | inl up ↦ rw up (insert_below-IsFalling y key ys (behind-swap y key up) f)
  | inr down ↦ rw down (down, f)
]

insert_var-perm : (key : EmitVar) (ys : List EmitVar) → Perm (insert_var key ys) (key ∷ ys)
insert_var-perm key [] = Perm.refl (key ∷ [])
insert_var-perm key (y ∷ ys) = elim (Bool-cases (is_behind y key)) [
  | inl up ↦ rw up (Perm.trans (Perm.cons y (insert_var-perm key ys)) (Perm.swap key y ys))
  | inr down ↦ rw down (Perm.refl (key ∷ (y ∷ ys)))
]

insert_all-IsFalling :
    (ev passed : List EmitVar) → IsFalling passed → IsFalling (insert_all passed ev)
insert_all-IsFalling [] passed f = f
insert_all-IsFalling (key ∷ rest) passed f =
    insert_all-IsFalling rest (insert_var key passed) (insert_var-IsFalling key passed f)

insert_all-perm : (ev passed : List EmitVar) → Perm (insert_all passed ev) (passed ++ ev)
insert_all-perm [] passed = rw (append-nil passed) (Perm.refl passed)
insert_all-perm (key ∷ rest) passed = Perm.trans (insert_all-perm rest (insert_var key passed)) (
    Perm.trans (Perm.append_right rest (insert_var-perm key passed))
      (Perm.symm (perm_middle passed rest)))

-- The last record of the front is not behind the first one of the rest.
abbrev Meets : List EmitVar → List EmitVar → Type 0
Meets [] bs = Unit
Meets (y ∷ ys) [] = Unit
Meets (y ∷ ys) (b ∷ bs) = is_behind y b ≡ false

unwind-IsSorted :
    (ys bs : List EmitVar) → IsFalling ys → IsSorted bs → Meets ys bs → IsSorted (unwind ys bs)
unwind-IsSorted [] bs f s m = s
unwind-IsSorted (y ∷ []) [] f s m = tt
unwind-IsSorted (y ∷ []) (b ∷ bs) f s m = (m, s)
unwind-IsSorted (y ∷ (z ∷ zs)) [] (h, f) s m = unwind-IsSorted (z ∷ zs) (y ∷ []) f tt h
unwind-IsSorted (y ∷ (z ∷ zs)) (b ∷ bs) (h, f) s m =
    unwind-IsSorted (z ∷ zs) (y ∷ (b ∷ bs)) f (m, s) h

unwind-perm : (ys bs : List EmitVar) → Perm (unwind ys bs) (ys ++ bs)
unwind-perm [] bs = Perm.refl bs
unwind-perm (y ∷ ys) bs = Perm.trans (unwind-perm ys (y ∷ bs)) (perm_middle ys bs)

Meets-nil : (ys : List EmitVar) → Meets ys []
Meets-nil [] = tt
Meets-nil (y ∷ ys) = tt

-- The variables that romgen writes are the records it has made, in the order of scope and name.
pub sort_vars-IsSorted : (ev : List EmitVar) → IsSorted (sort_vars ev) × Perm (sort_vars ev) ev
unfolding sort_vars
sort_vars-IsSorted ev =
    let inserted = insert_all [] ev in
    let same = unwind-perm inserted [] in
    (
      unwind-IsSorted inserted [] (insert_all-IsFalling ev [] tt) tt (Meets-nil inserted),
      Perm.trans (rw (append-nil inserted) at same) (insert_all-perm ev []),
    )
