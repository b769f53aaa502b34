-- ===== src/Peep/Scan/Cases.antt =====
-- The cases of one round of scan4op (src/s1c88/peep.c).
use sdcc.Common.{
  ℕ, suc, ◌≤◌, ◌<◌, ◌≡◌, ◌⊎◌, refl, inl, inr, Bool, true, false, List, get_or, set, length, leb,
  leb→le, arith, Chars, Bool-cases,
}
use sdcc.Peep.Env.{Env, Line}
use sdcc.Peep.Scan.{
  S4oRet, s4o_visited, s4o_abort, Round, stop, go_on, line_at, is_skipped, scan_line, ends, moves,
  scan_step,
}

pub Round-cases : (r : Round) → ((x : S4oRet) × (r ≡ stop x)) ⊎ ((j : ℕ) × (r ≡ go_on j))
Round-cases (stop x) = inl (x, refl)
Round-cases (go_on j) = inr (j, refl)

module _ (env : Env) (code : List Line) (what : Chars) where
  -- The line is an instruction that the scan looks at.
  abbrev pub Runs : ℕ → Type 0
  Runs i =
      (i < length code)
      × (is_skipped (line_at env code what i) ≡ false)
      × ((line_at env code what i).is_inline ≡ false)

  pub data StepCase (visited : List Bool) (i : ℕ) : Type 0 where
    past_end :
        length code ≤ i
        → scan_step env code what visited i ≡ ends s4o_abort visited
        → StepCase visited i
    passes :
        i < length code
        → is_skipped (line_at env code what i) ≡ true
        → scan_step env code what visited i ≡ moves visited (suc i)
        → StepCase visited i
    at_inline :
        is_skipped (line_at env code what i) ≡ false
        → (line_at env code what i).is_inline ≡ true
        → scan_step env code what visited i ≡ ends s4o_abort visited
        → StepCase visited i
    seen_before :
        Runs i
        → get_or visited i false ≡ true
        → scan_step env code what visited i ≡ ends s4o_visited visited
        → StepCase visited i
    first_time :
        Runs i
        → get_or visited i false ≡ false
        → scan_step env code what visited i ≡ elim (scan_line env code what i) [
          | stop r ↦ ends r (set visited i true)
          | go_on j ↦ moves (set visited i true) (suc j)
        ]
        → StepCase visited i

  pub step-cases : (visited : List Bool) (i : ℕ) → StepCase visited i
  unfolding scan_step
  step-cases visited i = elim (Bool-cases (leb (length code) i)) [
    | inl past ↦ past_end (leb→le (length code) i past) (rw past)
    | inr inside ↦
        let below : i < length code = ground arith in
        elim (Bool-cases (is_skipped (line_at env code what i))) [
          | inl skip ↦ passes below skip (rw (inside, skip))
          | inr line ↦ elim (Bool-cases (line_at env code what i).is_inline) [
            | inl inline ↦ at_inline line inline (rw (inside, line, inline))
            | inr plain ↦ elim (Bool-cases (get_or visited i false)) [
              | inl seen ↦ seen_before (below, line, plain) seen (rw (inside, line, plain, seen))
              | inr fresh ↦ first_time (below, line, plain) fresh (rw (inside, line, plain, fresh))
            ]
          ]
        ]
  ]
