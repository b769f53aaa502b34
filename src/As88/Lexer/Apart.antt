-- ===== src/As88/Lexer/Apart.antt =====
-- sdas/as88/s1c88adr.c: "none is a prefix of another, order is free". No two names of a table can
-- stand at the same place of the input.
use sdcc.Common.{
  ℕ, ◌≡◌, ◌⊎◌, inl, inr, refl, sym, ap, ap₂, ◌∙◌, Bool, true, false, not, ◌&&◌, ◌||◌, List, [], ◌∷◌,
  ◌++◌, map, ◌==◌, leb, arith,
}
use sdcc.As88.Lexer.{Text, AdSym, folded}
use sdcc.As88.Lexer.Matches.{Matches, cons-head, cons-tail}
use sdcc.As88.Tables.{r8_table, r16_table, cr_table, pall_table, cnd_table, cnde_table}

-- One of the two begins with the other.
abbrev comparable : Text → Text → Bool
comparable [] ys = true
comparable (a ∷ xs) [] = true
comparable (a ∷ xs) (b ∷ ys) = (a == b) && comparable xs ys

-- Digits and small letters.
abbrev pub is_plain : ℕ → Bool
is_plain c = (leb b'0' c && leb c b'9') || (leb b'a' c && leb c b'z')

abbrev all_plain : Text → Bool
all_plain [] = true
all_plain (c ∷ cs) = is_plain c && all_plain cs

-- The row's name is plain, and no name behind it is comparable.
abbrev apart_from : AdSym → List AdSym → Bool
apart_from row [] = all_plain row.a_str
apart_from row (next ∷ rows) = not (comparable row.a_str next.a_str) && apart_from row rows

abbrev apart : List AdSym → Bool
apart [] = true
apart (row ∷ rows) = apart_from row rows && apart rows

abbrev pub In : {A : Type 0} → A → List A → Type 0
In x [] = ⊥
In x (y ∷ ys) = (x ≡ y) ⊎ In x ys

comparable-swap : (xs ys : Text) → comparable xs ys ≡ comparable ys xs
comparable-swap [] [] = refl
comparable-swap [] (b ∷ ys) = refl
comparable-swap (a ∷ xs) [] = refl
comparable-swap (a ∷ xs) (b ∷ ys) = ground (arith, comparable-swap xs ys)

apart_from-plain :
    (x : AdSym) (rows : List AdSym) → apart_from x rows ≡ true → all_plain x.a_str ≡ true
apart_from-plain x [] h = h
apart_from-plain x (y ∷ rows) h = apart_from-plain x rows (ground arith)

apart_from-at :
    (x y : AdSym) (rows : List AdSym)
    → apart_from x rows ≡ true
    → In y rows
    → comparable x.a_str y.a_str ≡ false
apart_from-at x y [] h m = absurd m
apart_from-at x y (z ∷ rows) h (inl e) = rw e (ground arith)
apart_from-at x y (z ∷ rows) h (inr m) = apart_from-at x y rows (ground arith) m

apart-plain :
    (x : AdSym) (rows : List AdSym) → apart rows ≡ true → In x rows → all_plain x.a_str ≡ true
apart-plain x [] h m = absurd m
apart-plain x (y ∷ rows) h (inl e) = rw e (apart_from-plain y rows (ground arith))
apart-plain x (y ∷ rows) h (inr m) = apart-plain x rows (ground arith) m

-- Two rows of such a table are the same, or their names are not comparable.
apart-at :
    (x y : AdSym) (rows : List AdSym)
    → apart rows ≡ true
    → In x rows
    → In y rows
    → (x ≡ y) ⊎ (comparable x.a_str y.a_str ≡ false)
apart-at x y [] h m n = absurd m
apart-at x y (z ∷ rows) h (inl e) (inl d) = inl (e ∙ sym d)
apart-at x y (z ∷ rows) h (inl e) (inr n) = inr (rw e (apart_from-at z y rows (ground arith) n))
apart-at x y (z ∷ rows) h (inr m) (inl d) =
    inr (rw d (comparable-swap x.a_str z.a_str ∙ apart_from-at z x rows (ground arith) m))
apart-at x y (z ∷ rows) h (inr m) (inr n) = apart-at x y rows (ground arith) m n

abbrev pub tables : List (List AdSym)
tables = r8_table ∷ r16_table ∷ cr_table ∷ pall_table ∷ cnd_table ∷ cnde_table ∷ []

tables-apart : (t : List AdSym) → In t tables → apart t ≡ true
tables-apart t (inl e) = rw e refl
tables-apart t (inr (inl e)) = rw e refl
tables-apart t (inr (inr (inl e))) = rw e refl
tables-apart t (inr (inr (inr (inl e)))) = rw e refl
tables-apart t (inr (inr (inr (inr (inl e))))) = rw e refl
tables-apart t (inr (inr (inr (inr (inr (inl e)))))) = rw e refl
tables-apart t (inr (inr (inr (inr (inr (inr none_left)))))) = absurd none_left

module _ (ccase : ℕ → ℕ) where
  -- Two words at the same place.
  same_place :
      (v w r s : Text)
      → v ++ r ≡ w ++ s
      → comparable (map (folded ccase) v) (map (folded ccase) w) ≡ true
  same_place [] w r s e = refl
  same_place (x ∷ v) [] r s e = refl
  same_place (x ∷ v) (y ∷ w) r s e =
      let head : folded ccase x ≡ folded ccase y = ap (folded ccase) (cons-head e) in
      let tail = same_place v w r s (cons-tail e) in ground arith

  module _ (keeps : (c : ℕ) → is_plain c ≡ true → folded ccase c ≡ c) where
    plain_kept : (cs : Text) → all_plain cs ≡ true → map (folded ccase) cs ≡ cs
    plain_kept [] h = refl
    plain_kept (c ∷ cs) h =
        ap₂ (λ x xs. x ∷ xs) (keeps c (ground arith)) (plain_kept cs (ground arith))

    -- Two plain names that both stand at the input are comparable.
    both_stand :
        (ltr16 : ℕ → Bool) (ip a b r s : Text)
        → all_plain a ≡ true
        → all_plain b ≡ true
        → Matches ccase ltr16 ip a r
        → Matches ccase ltr16 ip b s
        → comparable a b ≡ true
    both_stand ltr16 ip a b r s pa pb (v, ev, fv, _) (w, ew, fw, _) =
        ap₂ comparable (sym (fv ∙ plain_kept a pa)) (sym (fw ∙ plain_kept b pb))
        ∙ same_place v w r s (sym ev ∙ ew)

    -- In each of the six tables at most one row stands at the same input, so that their order does
    -- not matter, provided `ccase` keeps digits and small letters.
    pub table_unique :
        (ltr16 : ℕ → Bool) (t : List AdSym) (x y : AdSym) (ip r s : Text)
        → In t tables
        → In x t
        → In y t
        → Matches ccase ltr16 ip x.a_str r
        → Matches ccase ltr16 ip y.a_str s
        → x ≡ y
    table_unique ltr16 t x y ip r s known mx my hx hy =
        elim (apart-at x y t (tables-apart t known) mx my) [
          | inl e ↦ e
          | inr differ ↦
              let both : comparable x.a_str y.a_str ≡ true =
                both_stand ltr16 ip x.a_str y.a_str r s (apart-plain x t (tables-apart t known) mx)
                  (apart-plain y t (tables-apart t known) my) hx hy in
              absurd (cc)
        ]
