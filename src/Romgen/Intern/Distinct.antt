-- ===== src/Romgen/Intern/Distinct.antt =====
-- Interning keeps a table of distinct records, and an index stays that of its record.
use sdcc.Common.{
  ℕ, suc, ◌+◌, ◌≡◌, ◌↔◌, refl, sym, ◌∙◌, inl, inr, Bool, true, false, ◌||◌, List, [], ◌∷◌, ◌++◌,
  none, some, length, take, take-append, take-all, get_elem?, Chars, str_eq, str_eq-eq, str_eq_refl,
  arith, Bool-cases, Option-cases,
}
use sdcc.Romgen.Intern.{TypeRec, same_type, index_from, add_missing, type_intern, file_id}

abbrev has {ℓ} : {A : Type ℓ} → (A → Bool) → List A → Bool
has p [] = false
has p (x ∷ xs) = p x || has p xs

-- No record stands in the table twice.
abbrev pub IsDistinct {ℓ} : {A : Type ℓ} → (A → A → Bool) → List A → Type 0
IsDistinct eq [] = Unit
IsDistinct eq (x ∷ xs) = (has (λ y. eq y x) xs ≡ false) × IsDistinct eq xs

-- The table is still distinct, the index is the record's, what was there stands where it stood, and
-- interning the record once more changes nothing.
abbrev pub IsInterned {ℓ} :
    {A : Type ℓ} → (A → A → Bool) → (List A → A → List A × ℕ) → List A → A → Type ℓ
IsInterned eq intern xs x =
    IsDistinct eq (intern xs x).0
    × (get_elem? (intern xs x).0 (intern xs x).1 ≡ some x)
    × (take (length xs) (intern xs x).0 ≡ xs)
    × (intern (intern xs x).0 x ≡ intern xs x)

index_from-some {ℓ} :
    {A : Type ℓ} (p : A → Bool) (xs : List A) (i j : ℕ)
    → index_from p xs i ≡ some j
    → (k : ℕ) × (y : A) × (j ≡ i + k) × (get_elem? xs k ≡ some y) × (p y ≡ true)
index_from-some p [] i j h = cc
index_from-some p (x ∷ xs) i j h = elim (Bool-cases (p x)) [
  | inl here ↦ (0, x, ground arith, refl, here)
  | inr not_here ↦
      let (k, y, e, at, t) = index_from-some p xs (suc i) j (rw not_here at h) in
      (suc k, y, omega arith, at, t)
]

index_from-none {ℓ} :
    {A : Type ℓ} (p : A → Bool) (xs : List A) (i : ℕ) → index_from p xs i ≡ none → has p xs ≡ false
index_from-none p [] i h = refl
index_from-none p (x ∷ xs) i h = elim (Bool-cases (p x)) [
  | inl here ↦ let bad = rw here at h in cc
  | inr not_here ↦ rw not_here (index_from-none p xs (suc i) (rw not_here at h))
]

index_from-append {ℓ} :
    {A : Type ℓ} (p : A → Bool) (xs : List A) (x : A) (i : ℕ)
    → index_from p xs i ≡ none
    → p x ≡ true
    → index_from p (xs ++ x ∷ []) i ≡ some (i + length xs)
index_from-append p [] x i h t = rw t (ground arith)
index_from-append p (y ∷ ys) x i h t = elim (Bool-cases (p y)) [
  | inl here ↦ let bad = rw here at h in cc
  | inr not_here ↦
      let ih = index_from-append p ys x (suc i) (rw not_here at h) t in
      let same : suc i + length ys ≡ i + suc (length ys) = omega arith in rw (not_here, ← same) ih
]

has-append {ℓ} :
    {A : Type ℓ} (p : A → Bool) (xs : List A) (x : A)
    → has p xs ≡ false
    → p x ≡ false
    → has p (xs ++ x ∷ []) ≡ false
has-append p [] x h t = rw t refl
has-append p (y ∷ ys) x h t = let ih = has-append p ys x (ground arith) t in ground arith

get_elem?-last {ℓ} :
    {A : Type ℓ} (xs : List A) (x : A) → get_elem? (xs ++ x ∷ []) (length xs) ≡ some x
get_elem?-last [] x = refl
get_elem?-last (y ∷ ys) x = get_elem?-last ys x

module _ {ℓ} {A : Type ℓ} (eq : A → A → Bool) (exact : (x y : A) → (eq x y ≡ true) ↔ (x ≡ y)) where
  eq-swap : (x y : A) → eq x y ≡ false → eq y x ≡ false
  eq-swap x y h = elim (Bool-cases (eq y x)) [
    | inl t ↦ let bad = (exact x y).1 (sym ((exact y x).0 t)) in cc
    | inr f ↦ f
  ]

  append-IsDistinct :
      (xs : List A) (x : A)
      → IsDistinct eq xs
      → has (λ y. eq y x) xs ≡ false
      → IsDistinct eq (xs ++ x ∷ [])
  append-IsDistinct [] x d h = (refl, tt)
  append-IsDistinct (y ∷ ys) x (fresh, d) h = (
    has-append (λ z. eq z y) ys x fresh (eq-swap y x (ground arith)),
    append-IsDistinct ys x d (ground arith),
  )

  abbrev intern : List A → A → List A × ℕ
  intern xs x = add_missing (index_from (λ y. eq y x) xs 0) xs x

  found-IsInterned :
      (xs : List A) (x : A) (j : ℕ)
      → IsDistinct eq xs
      → index_from (λ y. eq y x) xs 0 ≡ some j
      → IsInterned eq intern xs x
  found-IsInterned xs x j d found =
      let (k, y, e, at, t) = index_from-some (λ y. eq y x) xs 0 j found in
      let same_index : k ≡ j = omega arith in
      let at_j : get_elem? xs j ≡ some x = rw ((exact y x).0 t, same_index) at at in
      rw found (d, at_j, take-all xs (length xs) (omega arith), rw found refl)

  added-IsInterned :
      (xs : List A) (x : A)
      → IsDistinct eq xs
      → index_from (λ y. eq y x) xs 0 ≡ none
      → IsInterned eq intern xs x
  added-IsInterned xs x d missing =
      let again : index_from (λ y. eq y x) (xs ++ x ∷ []) 0 ≡ some (length xs) =
        index_from-append (λ y. eq y x) xs x 0 missing ((exact x x).1 refl) ∙ ground arith in
      rw missing (
        append-IsDistinct xs x d (index_from-none (λ y. eq y x) xs 0 missing),
        get_elem?-last xs x,
        take-append xs (x ∷ []) (length xs) refl,
        rw again refl,
      )

  pub intern-IsInterned : (xs : List A) (x : A) → IsDistinct eq xs → IsInterned eq intern xs x
  intern-IsInterned xs x d = elim (Option-cases (index_from (λ y. eq y x) xs 0)) [
    | inr (j, found) ↦ found-IsInterned xs x j d found
    | inl missing ↦ added-IsInterned xs x d missing
  ]

same_type-eq : (x y : TypeRec) → same_type x y ≡ true → x ≡ y
same_type-eq x y h =
    let a : x.kind_flags ≡ y.kind_flags = ground arith in
    let b : x.size ≡ y.size = ground arith in
    let c : x.target ≡ y.target = ground arith in
    let d : x.extra ≡ y.extra = ground arith in
    λ i. record { kind_flags = a i; size = b i; target = c i; extra = d i }

same_type_exact : (x y : TypeRec) → (same_type x y ≡ true) ↔ (x ≡ y)
same_type_exact x y = (same_type-eq x y, λ e. rw e (ground arith))

str_eq_exact : (p s : Chars) → (str_eq p s ≡ true) ↔ (p ≡ s)
str_eq_exact p s = (str_eq-eq p s, λ e. rw e (str_eq_refl s))

-- Looking up or adding a type or a file keeps its table without duplicates: the index is that of the
-- record, what was there stands where it stood, and interning the record once more changes nothing.
pub tables-IsInterned :
    (types : List TypeRec) (x : TypeRec) (files : List Chars) (name : Chars)
    → IsDistinct same_type types
    → IsDistinct str_eq files
    → IsInterned same_type type_intern types x × IsInterned str_eq file_id files name
unfolding type_intern file_id
tables-IsInterned types x files name d e = (
  intern-IsInterned same_type same_type_exact types x d,
  intern-IsInterned str_eq str_eq_exact files name e,
)
