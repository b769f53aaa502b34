-- ===== src/As88/Lexer/Matches.antt =====
-- What it means that a name stands at the input pointer.
use sdcc.Common.{
  ℕ, ◌%◌, ◌≡◌, ◌≢◌, ◌↔◌, inl, inr, refl, sym, ap, ap₂, Bool, true, false, none, some, [], ◌∷◌, ◌++◌,
  map, ◌==◌, Bool-cases, arith, subst, drop,
}
use sdcc.As88.Lexer.{Text, folded, srch_end, srch}

pub cons-head : {x y : ℕ} {xs ys : Text} → x ∷ xs ≡ y ∷ ys → x ≡ y
cons-head {x} e = ap (λ l. elim l [ [] ↦ x | z ∷ zs ↦ z ]) e

pub cons-tail : {x y : ℕ} {xs ys : Text} → x ∷ xs ≡ y ∷ ys → xs ≡ ys
cons-tail e = ap (λ (l : Text). drop 1 l) e

module _ (ccase : ℕ → ℕ) (ltr16 : ℕ → Bool) where
  -- The characters are none that `ccase` takes for the end of the string.
  abbrev pub IsText : Text → Type 0
  IsText [] = Unit {0}
  IsText (c ∷ cs) = (folded ccase c ≢ folded ccase 0) × IsText cs

  -- No letter follows.
  abbrev pub Ends : Text → Type 0
  Ends [] = Unit {0}
  Ends (c ∷ cs) = ltr16 (c % 128) ≡ false

  -- The input is a word that reads like the name, but for its case, and then the rest.
  abbrev pub Matches : Text → Text → Text → Type 0
  Matches ip str rest =
      (word : Text) × (ip ≡ word ++ rest)
      × (map (folded ccase) word ≡ map (folded ccase) str)
      × Ends rest

  some-eq : {x y : Text} → some x ≡ some y → x ≡ y
  some-eq {x} e = ap (λ o. elim o [ none ↦ x | some z ↦ z ]) e

  srch-Matches :
      (ip str rest : Text)
      → IsText ip
      → IsText str
      → srch ccase ltr16 ip str ≡ some rest
      → Matches ip str rest
  unfolding srch srch_end
  srch-Matches [] [] rest ti ts h =
      let end : folded ccase 0 == folded ccase 0 ≡ true = ground arith in
      let e : [] ≡ rest = some-eq (rw end at h) in ([], e, refl, subst Ends e tt)
  srch-Matches [] (s ∷ str) rest ti ts h =
      let differ : folded ccase 0 == folded ccase s ≡ false = ground (arith, ts.0) in
      let e : none ≡ some rest = rw differ at h in absurd (cc)
  srch-Matches (p ∷ ip) [] rest ti ts h =
      let differ : folded ccase p == folded ccase 0 ≡ false = ground (arith, ti.0) in
      elim (Bool-cases (ltr16 (p % 128))) [
        | inl letter ↦ let e : none ≡ some rest = rw (differ, letter) at h in absurd (cc)
        | inr clear ↦
            let e : p ∷ ip ≡ rest = some-eq (rw (differ, clear) at h) in
            ([], e, refl, subst Ends e clear)
      ]
  srch-Matches (p ∷ ip) (s ∷ str) rest ti ts h =
      elim (Bool-cases (folded ccase p == folded ccase s)) [
        | inl alike ↦
            let m : Matches ip str rest = srch-Matches ip str rest ti.1 ts.1 (rw alike at h) in
            (p ∷ m.0, ap (λ xs. p ∷ xs) m.1, ap₂ (λ x xs. x ∷ xs) (ground arith) m.2, m.3)
        | inr differ ↦ let e : none ≡ some rest = rw differ at h in absurd (cc)
      ]

  Matches-srch :
      (word rest str : Text)
      → IsText (word ++ rest)
      → IsText str
      → map (folded ccase) word ≡ map (folded ccase) str
      → Ends rest
      → srch ccase ltr16 (word ++ rest) str ≡ some rest
  unfolding srch srch_end
  Matches-srch [] [] [] ti ts e h =
      let end : folded ccase 0 == folded ccase 0 ≡ true = ground arith in rw end refl
  Matches-srch [] (c ∷ rest) [] ti ts e h =
      let differ : folded ccase c == folded ccase 0 ≡ false = ground (arith, ti.0) in
      rw (differ, h) refl
  Matches-srch [] rest (s ∷ str) ti ts e h = cc
  Matches-srch (w ∷ word) rest [] ti ts e h = cc
  Matches-srch (w ∷ word) rest (s ∷ str) ti ts e h =
      let alike : folded ccase w == folded ccase s ≡ true = ground (arith, cons-head e) in
      rw alike (Matches-srch word rest str ti.1 ts.1 (cons-tail e) h)

  -- `srch` finds a name, and leaves the input pointer at the rest, exactly when the input is a word
  -- that reads like the name, but for its case, in front of a rest that begins with no letter.
  -- No character of the two may be one that `ccase` takes for the end of a string.
  pub srch_iff :
      (ip str rest : Text)
      → IsText ip
      → IsText str
      → (srch ccase ltr16 ip str ≡ some rest) ↔ Matches ip str rest
  srch_iff ip str rest ti ts = (
    srch-Matches ip str rest ti ts,
    λ m.
        subst (λ x. srch ccase ltr16 x str ≡ some rest) (sym m.1)
          (Matches-srch m.0 rest str (subst IsText m.1 ti) ts m.2 m.3),
  )
