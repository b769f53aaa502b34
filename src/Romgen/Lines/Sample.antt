-- ===== src/Romgen/Lines/Sample.antt =====
-- A sorting function that does what is asked of `qsort`, for the examples.
use sdcc.Common.{
  ◌≡◌, ◌≢◌, ap, inl, inr, Bool, true, false, List, [], ◌∷◌, if◌then◌else◌, arith, Bool-cases,
}
use mathlib.Core.List.{Perm}
use mathlib.Core.List.Perm
use sdcc.Romgen.Lines.{LineRec, Sign, above, line_cmp}
use sdcc.Romgen.Lines.Sorted.{IsSorted, Sorts}

abbrev is_above : Sign → Bool
is_above above = true
is_above _ = false

abbrev insert_line : LineRec → List LineRec → List LineRec
insert_line x [] = x ∷ []
insert_line x (y ∷ ys) =
    let deeper = y ∷ insert_line x ys in if is_above (line_cmp x y) then deeper else x ∷ (y ∷ ys)

abbrev pub insertion_sort : List LineRec → List LineRec
insertion_sort [] = []
insertion_sort (x ∷ xs) = insert_line x (insertion_sort xs)

above-swap : (x y : LineRec) → is_above (line_cmp x y) ≡ true → line_cmp y x ≢ above
above-swap x y h e = ground arith

not_above : (x y : LineRec) → is_above (line_cmp x y) ≡ false → line_cmp x y ≢ above
not_above x y h e = let bad = ap is_above e in cc

-- Behind a head that is not above it, the new record keeps the order.
insert_line-IsSorted :
    (y x : LineRec) (ys : List LineRec)
    → line_cmp y x ≢ above
    → IsSorted (y ∷ ys)
    → IsSorted (y ∷ insert_line x ys)
insert_line-IsSorted y x [] h s = (h, tt)
insert_line-IsSorted y x (z ∷ zs) h (yz, s) = elim (Bool-cases (is_above (line_cmp x z))) [
  | inl up ↦ rw up (yz, insert_line-IsSorted z x zs (above-swap x z up) s)
  | inr down ↦ rw down (h, (not_above x z down, s))
]

insert_first-IsSorted :
    (x : LineRec) (ys : List LineRec) → IsSorted ys → IsSorted (insert_line x ys)
insert_first-IsSorted x [] s = tt
insert_first-IsSorted x (y ∷ ys) s = elim (Bool-cases (is_above (line_cmp x y))) [
  | inl up ↦ rw up (insert_line-IsSorted y x ys (above-swap x y up) s)
  | inr down ↦ rw down (not_above x y down, s)
]

insert_line-perm : (x : LineRec) (ys : List LineRec) → Perm (insert_line x ys) (x ∷ ys)
insert_line-perm x [] = Perm.refl (x ∷ [])
insert_line-perm x (y ∷ ys) = elim (Bool-cases (is_above (line_cmp x y))) [
  | inl up ↦ rw up (Perm.trans (Perm.cons y (insert_line-perm x ys)) (Perm.swap x y ys))
  | inr down ↦ rw down (Perm.refl (x ∷ (y ∷ ys)))
]

insertion_sort-IsSorted : (xs : List LineRec) → IsSorted (insertion_sort xs)
insertion_sort-IsSorted [] = tt
insertion_sort-IsSorted (x ∷ xs) =
    insert_first-IsSorted x (insertion_sort xs) (insertion_sort-IsSorted xs)

insertion_sort-perm : (xs : List LineRec) → Perm (insertion_sort xs) xs
insertion_sort-perm [] = Perm.refl []
insertion_sort-perm (x ∷ xs) =
    Perm.trans (insert_line-perm x (insertion_sort xs)) (Perm.cons x (insertion_sort-perm xs))

pub insertion_sort-Sorts : Sorts insertion_sort
insertion_sort-Sorts xs = (insertion_sort-perm xs, insertion_sort-IsSorted xs)
