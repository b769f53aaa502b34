-- ===== src/Romgen/Lines/Sorted.antt =====
-- The line table of romgen is strictly ordered and keeps a record for each place.
use sdcc.Common.{
  ◌≡◌, ◌≢◌, inl, inr, refl, ◌∙◌, Bool, true, false, ◌||◌, List, [], ◌∷◌, arith, Bool-cases,
}
use mathlib.Core.Bool.{Bool-set}
use mathlib.Core.List.{Perm, foldr}
use mathlib.Core.List.Perm
use sdcc.Romgen.Lines.{
  LineRec, below, same, above, line_cmp, is_same, drop_same, drop_duplicates, line_table,
}

abbrev pub IsSorted : List LineRec → Type 0
IsSorted [] = Unit
IsSorted (x ∷ []) = Unit
IsSorted (x ∷ (y ∷ ys)) = (line_cmp x y ≢ above) × IsSorted (y ∷ ys)

abbrev pub IsStrict : List LineRec → Type 0
IsStrict [] = Unit
IsStrict (x ∷ []) = Unit
IsStrict (x ∷ (y ∷ ys)) = (line_cmp x y ≡ below) × IsStrict (y ∷ ys)

-- Whether a record of the list stands for the same place: address, line and file.
abbrev same_or : LineRec → LineRec → Bool → Bool
same_or z x b = is_same (line_cmp z x) || b

abbrev pub has_place : LineRec → List LineRec → Bool
has_place z xs = foldr (same_or z) false xs

-- What the C library promises of `qsort`: the same records, in order.
abbrev pub Sorts : (List LineRec → List LineRec) → Type 0
Sorts qsort = (xs : List LineRec) → Perm (qsort xs) xs × IsSorted (qsort xs)

same-keys :
    (x y : LineRec)
    → is_same (line_cmp x y) ≡ true
    → (x.phys ≡ y.phys) × (x.line ≡ y.line) × (x.file ≡ y.file)
same-keys x y h = ground arith

line_cmp_refl : (x : LineRec) → line_cmp x x ≡ same
line_cmp_refl x = ground arith

-- Neither above nor the same, so below.
line_cmp-below :
    (x y : LineRec) → line_cmp x y ≢ above → is_same (line_cmp y x) ≡ false → line_cmp x y ≡ below
line_cmp-below x y h n = ground arith

same-cmp : (x y z : LineRec) → is_same (line_cmp y x) ≡ true → line_cmp x z ≡ line_cmp y z
same-cmp x y z h = let (p, l, f) = same-keys y x h in rw (p, l, f)

same_or-swap :
    (z x y : LineRec) (b : Bool) → same_or z x (same_or z y b) ≡ same_or z y (same_or z x b)
same_or-swap z x y b = ground arith

-- The order in which the records stand does not matter.
has_place-perm : (z : LineRec) {xs ys : List LineRec} → Perm xs ys → has_place z xs ≡ has_place z ys
has_place-perm z p = Perm.foldr-eq Bool-set (same_or z) (same_or-swap z) p false

drop_same-IsStrict :
    (kept : LineRec) (xs : List LineRec)
    → IsSorted (kept ∷ xs)
    → IsStrict (kept ∷ drop_same kept xs)
unfolding drop_same
drop_same-IsStrict kept [] h = tt
drop_same-IsStrict kept (x ∷ xs) (h, hs) = elim (Bool-cases (is_same (line_cmp x kept))) [
  | inl again ↦ rw (drop_same, again) (drop_same-IsStrict kept xs (skip_head kept x xs again hs))
  | inr new ↦ rw (drop_same, new) (line_cmp-below kept x h new, drop_same-IsStrict x xs hs)
]
  where
    skip_head :
        (kept x : LineRec) (xs : List LineRec)
        → is_same (line_cmp x kept) ≡ true
        → IsSorted (x ∷ xs)
        → IsSorted (kept ∷ xs)
    skip_head kept x [] again hs = tt
    skip_head kept x (y ∷ ys) again (h, hs) = (rw (same-cmp kept x y again) h, hs)

or_twice : (a b : Bool) → (a || b) ≡ (a || (a || b))
or_twice true b = refl
or_twice false b = refl

drop_same-has_place :
    (z kept : LineRec) (xs : List LineRec)
    → has_place z (kept ∷ drop_same kept xs) ≡ has_place z (kept ∷ xs)
unfolding drop_same
drop_same-has_place z kept [] = refl
drop_same-has_place z kept (x ∷ xs) = elim (Bool-cases (is_same (line_cmp x kept))) [
  | inl again ↦
      let ih = drop_same-has_place z kept xs in
      let (p, l, f) = same-keys x kept again in
      let equal : line_cmp z x ≡ line_cmp z kept = rw (p, l, f) refl in
      rw (drop_same, again, equal) (ih ∙ or_twice (is_same (line_cmp z kept)) (has_place z xs))
  | inr new ↦ let ih = drop_same-has_place z x xs in rw (drop_same, new, ih) refl
]

drop_duplicates-IsStrict : (xs : List LineRec) → IsSorted xs → IsStrict (drop_duplicates xs)
drop_duplicates-IsStrict [] h = tt
drop_duplicates-IsStrict (x ∷ xs) h = drop_same-IsStrict x xs h

drop_duplicates-has_place :
    (z : LineRec) (xs : List LineRec) → has_place z (drop_duplicates xs) ≡ has_place z xs
drop_duplicates-has_place z [] = refl
drop_duplicates-has_place z (x ∷ xs) = drop_same-has_place z x xs

-- The line table is strictly ordered by address, line and file, and stands for the same places as
-- the records it is made of.
pub line_table-IsStrict :
    (qsort : List LineRec → List LineRec) (lines : List LineRec)
    → Sorts qsort
    → IsStrict (line_table qsort lines)
      × ((z : LineRec) → has_place z (line_table qsort lines) ≡ has_place z lines)
unfolding line_table
line_table-IsStrict qsort [] sorts = (tt, λ z. refl)
line_table-IsStrict qsort (x ∷ xs) sorts =
    let (p, h) = sorts (x ∷ xs) in
    (
      drop_duplicates-IsStrict (qsort (x ∷ xs)) h,
      λ z. drop_duplicates-has_place z (qsort (x ∷ xs)) ∙ has_place-perm z p,
    )
