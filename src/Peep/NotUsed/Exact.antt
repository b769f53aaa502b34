-- ===== src/Peep/NotUsed/Exact.antt =====
-- s1c88notUsed (src/s1c88/peep.c) always answers, and answers yes just when no execution may read the
-- register.
use sdcc.Common.{
  ℕ, suc, ◌≡◌, ◌↔◌, refl, inl, inr, Bool, true, false, List, [], ◌∷◌, some, Chars, Bool-cases,
  Option-cases,
}
use sdcc.Peep.Env.{Env, Line}
use sdcc.Peep.Live.{MayRead, PlainLabels}
use sdcc.Peep.Scan.{scan_from}
use sdcc.Peep.Scan.Ends.{scan_from_ends}
use sdcc.Peep.Scan.Sound.{scan_from_sound}
use sdcc.Peep.Scan.Complete.{scan_from_complete}
use sdcc.Peep.NotUsed.{parts, all_unused, not_used}

abbrev pub AllOf : (Chars → Type 0) → List Chars → Type 0
AllOf P [] = Unit
AllOf P (x ∷ xs) = P x × AllOf P xs

module _ (env : Env) (code : List Line) where
  abbrev pub NeverRead : ℕ → Chars → Type 0
  NeverRead i what = ¬ MayRead env code what i

  scan_from_exactly :
      (what : Chars) (end_pl : ℕ)
      → PlainLabels env code what
      → (scan_from env code what end_pl ≡ some true) ↔ NeverRead (suc end_pl) what
  scan_from_exactly what end_pl plain = (
    scan_from_sound env code what plain end_pl,
    λ never.
        (let (ok, e) = scan_from_ends env code what end_pl in
          elim (Bool-cases ok) [
            | inl good ↦ rw good at e
            | inr bad ↦ absurd (never (scan_from_complete env code what plain end_pl (rw bad at e)))
          ]),
  )

  all_unused_exactly :
      (whats : List Chars) (end_pl : ℕ)
      → AllOf (PlainLabels env code) whats
      → (all_unused env code whats end_pl ≡ some true) ↔ AllOf (NeverRead (suc end_pl)) whats
  unfolding all_unused
  all_unused_exactly [] end_pl plain = ((λ h. tt), λ h. refl)
  all_unused_exactly (what ∷ whats) end_pl (plain, plains) =
      let first = scan_from_exactly what end_pl plain in
      let others = all_unused_exactly whats end_pl plains in
      let (ok, e) = scan_from_ends env code what end_pl in
      elim (Bool-cases ok) [
        | inl good ↦
            let answers = rw good at e in
            (
              (λ h. (first.0 answers, others.0 (rw (all_unused, answers) at h))),
              λ h. rw (all_unused, answers) (others.1 h.1),
            )
        | inr bad ↦
            let answers = rw bad at e in
            (
              (λ h. (let out = rw (all_unused, answers) at h in cc)),
              λ h. (let out = first.1 h.0 in cc),
            )
      ]

  all_unused_answers :
      (whats : List Chars) (end_pl : ℕ) → (ok : Bool) × (all_unused env code whats end_pl ≡ some ok)
  unfolding all_unused
  all_unused_answers [] end_pl = (true, refl)
  all_unused_answers (what ∷ whats) end_pl =
      let (ok, e) = scan_from_ends env code what end_pl in
      elim (Bool-cases ok) [
        | inl good ↦
            let (oks, rest) = all_unused_answers whats end_pl in
            let answers = rw good at e in (oks, rw (all_unused, answers) rest)
        | inr bad ↦ let answers = rw bad at e in (false, rw (all_unused, answers))
      ]

  -- The question whether a register is not used is always answered: the scans end.
  pub not_used_answers :
      (iy_reserved : Bool) (what : Chars) (end_pl : ℕ)
      → (ok : Bool) × (not_used env code iy_reserved what end_pl ≡ some ok)
  unfolding not_used
  not_used_answers iy_reserved what end_pl = elim (Option-cases (parts iy_reserved what)) [
    | inl nothing ↦ (false, rw (not_used, nothing))
    | inr (whats, e) ↦ let (ok, run) = all_unused_answers whats end_pl in (ok, rw (not_used, e) run)
  ]

  -- A register or a pair that can be asked for is found not used just when, for each of its parts, no
  -- execution from behind the line may read the part before it surely writes it. No line of a label may
  -- look like an instruction that writes, branches or returns.
  pub not_used_exactly :
      (iy_reserved : Bool) (what : Chars) (whats : List Chars) (end_pl : ℕ)
      → parts iy_reserved what ≡ some whats
      → AllOf (PlainLabels env code) whats
      → (not_used env code iy_reserved what end_pl ≡ some true)
        ↔ AllOf (NeverRead (suc end_pl)) whats
  unfolding not_used
  not_used_exactly iy_reserved what whats end_pl e plains =
      let exactly = all_unused_exactly whats end_pl plains in
      ((λ h. exactly.0 (rw (not_used, e) at h)), λ h. rw (not_used, e) (exactly.1 h))
