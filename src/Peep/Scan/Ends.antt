-- ===== src/Peep/Scan/Ends.antt =====
-- The scans of src/s1c88/peep.c end: each round passes a line or marks one.
use sdcc.Common.{
  ℕ, zero, suc, ◌+◌, ◌-◌, ◌*◌, ◌≤◌, ◌<◌, ◌≡◌, refl, ◌∙◌, inl, inr, Bool, true, false, List, [], ◌∷◌,
  some, get_or, set, replicate, length-replicate, length, length-set, Bool-cases, arith, Chars,
}
use sdcc.Peep.Env.{Env, Line}
use sdcc.Peep.Scan.{
  S4oRet, s4o_condjmp, s4o_wr_op, s4o_rd_op, s4o_term, s4o_visited, s4o_abort, scan_line, scan4op,
  scan_fuel, do_term_scan, scan_from,
}
use sdcc.Peep.Scan.Cases.{
  Round-cases, past_end, passes, at_inline, seen_before, first_time, step-cases,
}

-- How many lines are not visited.
abbrev unset : List Bool → ℕ
unset [] = 0
unset (true ∷ bs) = unset bs
unset (false ∷ bs) = suc (unset bs)

unset-set :
    (bs : List Bool) (i : ℕ)
    → i < length bs
    → get_or bs i false ≡ false
    → suc (unset (set bs i true)) ≡ unset bs
unset-set [] i h e = absurd (omega arith)
unset-set (true ∷ bs) zero h e = cc
unset-set (false ∷ bs) zero h e = refl
unset-set (true ∷ bs) (suc i) h e = unset-set bs i (omega arith) e
unset-set (false ∷ bs) (suc i) h e = let ih = unset-set bs i (omega arith) e in omega arith

unset-le : (bs : List Bool) → unset bs ≤ length bs
unset-le [] = omega arith
unset-le (true ∷ bs) = let ih = unset-le bs in omega arith
unset-le (false ∷ bs) = let ih = unset-le bs in omega arith

-- A marked line outweighs the lines that are passed.
measure_drops : (u v n i j : ℕ) → suc v ≡ u → v * suc n + (n - suc j) < u * suc n + (n - i)
measure_drops u v n i j e = rw (← e) (omega arith)

times_le : (u n k : ℕ) → u ≤ n → u * k ≤ n * k
times_le zero n k h = omega arith
times_le (suc u) zero k h = absurd (omega arith)
times_le (suc u) (suc n) k h = let ih = times_le u n k (omega arith) in omega arith

abbrev pub is_condjmp : S4oRet → Bool
is_condjmp (s4o_condjmp pl branch) = true
is_condjmp _ = false

module _ (env : Env) (code : List Line) (what : Chars) where
  abbrev measure : List Bool → ℕ → ℕ
  measure visited i = unset visited * suc (length code) + (length code - i)

  -- What the scan does to the flags.
  abbrev Progress : List Bool → S4oRet → List Bool → Type 0
  Progress visited r seen =
      (length seen ≡ length code)
      × (unset seen ≤ unset visited)
      × (is_condjmp r ≡ true → unset seen < unset visited)

  abbrev ScanEnds : ℕ → List Bool → ℕ → Type 0
  ScanEnds fuel visited i =
      (r : S4oRet) × (seen : List Bool) × (scan4op env code what fuel visited i ≡ some (r, seen))
      × Progress visited r seen

  scan4op_ends :
      (fuel : ℕ) (visited : List Bool) (i : ℕ)
      → length visited ≡ length code
      → measure visited i < fuel
      → ScanEnds fuel visited i
  unfolding scan4op
  scan4op_ends zero visited i l h = absurd (omega arith)
  scan4op_ends (suc fuel) visited i l h = elim (step-cases env code what visited i) [
    | past_end past e ↦ (s4o_abort, visited, rw (scan4op, e), (l, omega arith, λ c. cc))
    | passes below skip e ↦
        let (r, seen, run, ok) = scan4op_ends fuel visited (suc i) l (omega arith) in
        (r, seen, rw (scan4op, e) run, ok)
    | at_inline line inline e ↦ (s4o_abort, visited, rw (scan4op, e), (l, omega arith, λ c. cc))
    | seen_before runs v e ↦ (s4o_visited, visited, rw (scan4op, e), (l, omega arith, λ c. cc))
    | first_time runs v e ↦
        let fewer = unset-set visited i (omega arith) v in
        let same_length = length-set visited i true ∙ l in
        let drops = measure_drops (unset visited) (unset (set visited i true)) (length code) i in
        elim (Round-cases (scan_line env code what i)) [
          | inl (r, s) ↦ (
            r,
            set visited i true,
            rw (scan4op, e, s),
            (same_length, omega arith, λ c. omega arith),
          )
          | inr (j, s) ↦
              let bound = drops j fewer in
              let (r, seen, run, (l', le, lt)) =
                scan4op_ends fuel (set visited i true) (suc j) same_length (omega arith) in
              (r, seen, rw (scan4op, e, s) run, (l', omega arith, λ c. let b = lt c in omega arith))
        ]
  ]

  abbrev TermScanEnds : ℕ → List Bool → ℕ → Type 0
  TermScanEnds fuel visited i =
      (ok : Bool) × (seen : List Bool) × (do_term_scan env code what fuel visited i
        ≡ some (ok, seen))
      × (length seen ≡ length code)
      × (unset seen ≤ unset visited)

  abbrev FuelEnds : ℕ → Type 0
  FuelEnds fuel =
      (visited : List Bool) (i : ℕ)
      → length visited ≡ length code
      → unset visited < fuel
      → TermScanEnds fuel visited i

  -- The fuel of `scan4op` is enough for any flags.
  measure_bound :
      (visited : List Bool) (i : ℕ)
      → length visited ≡ length code
      → measure visited i < scan_fuel env code what
  measure_bound visited i l =
      let few = unset-le visited in
      let le = times_le (unset visited) (length code) (suc (length code)) (omega arith) in
      omega arith

  term_scan_after :
      (fuel : ℕ)
      → FuelEnds fuel
      → (visited : List Bool) (i : ℕ) → unset visited < suc fuel
      → (r : S4oRet) (seen : List Bool)
      → scan4op env code what (scan_fuel env code what) visited i ≡ some (r, seen)
      → Progress visited r seen
      → TermScanEnds (suc fuel) visited i
  unfolding do_term_scan
  term_scan_after fuel ih visited i h s4o_term seen run (l', le, lt) =
      (true, seen, rw (do_term_scan, run), l', le)
  term_scan_after fuel ih visited i h s4o_visited seen run (l', le, lt) =
      (true, seen, rw (do_term_scan, run), l', le)
  term_scan_after fuel ih visited i h s4o_wr_op seen run (l', le, lt) =
      (true, seen, rw (do_term_scan, run), l', le)
  term_scan_after fuel ih visited i h s4o_rd_op seen run (l', le, lt) =
      (false, seen, rw (do_term_scan, run), l', le)
  term_scan_after fuel ih visited i h s4o_abort seen run (l', le, lt) =
      (false, seen, rw (do_term_scan, run), l', le)
  term_scan_after fuel ih visited i h (s4o_condjmp pl branch) seen run (l', le, lt) =
      let fewer = lt refl in
      let (ok, seen2, run2, l2, le2) = ih seen branch l' (omega arith) in
      elim (Bool-cases ok) [
        | inl yes_ok ↦
            let (ok3, seen3, run3, l3, le3) = ih seen2 (suc pl) l2 (omega arith) in
            (ok3, seen3, rw (do_term_scan, run, run2, yes_ok) run3, l3, omega arith)
        | inr not_ok ↦ (false, seen2, rw (do_term_scan, run, run2, not_ok), l2, omega arith)
      ]

  do_term_scan_ends : (fuel : ℕ) → FuelEnds fuel
  do_term_scan_ends zero visited i l h = absurd (omega arith)
  do_term_scan_ends (suc fuel) visited i l h =
      let (r, seen, run, progress) =
        scan4op_ends (scan_fuel env code what) visited i l (measure_bound visited i l) in
      term_scan_after fuel (do_term_scan_ends fuel) visited i h r seen run progress

  -- A scan always answers.
  pub scan_from_ends : (end_pl : ℕ) → (ok : Bool) × (scan_from env code what end_pl ≡ some ok)
  unfolding scan_from
  scan_from_ends end_pl =
      let none_set = replicate (length code) false in
      let same = length-replicate (length code) false in
      let few = unset-le none_set in
      let (ok, seen, run, l, le) =
        do_term_scan_ends (suc (length code)) none_set (suc end_pl) same (omega arith) in
      (ok, rw (scan_from, run))
