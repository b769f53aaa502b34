-- ===== src/Peep/Scan/Complete.antt =====
-- A scan of src/s1c88/peep.c that gives up has found an execution that may read the register.
use sdcc.Common.{
  ℕ, zero, suc, ◌≡◌, inl, inr, Bool, true, false, List, some, set, length, replicate, Chars,
  Bool-cases, Option-cases,
}
use sdcc.Peep.Env.{Env, Line}
use sdcc.Peep.Live.{
  MayRead, PlainLabels, runs_out, passes_by, is_inline_asm, jumps, branches, branches_not, goes_on,
}
use sdcc.Peep.Scan.Cases.{Runs, past_end, passes, at_inline, seen_before, first_time, step-cases}
use sdcc.Peep.Scan.Lines.{
  line_reads, line_leaves, line_calls, line_jumps, line_branches, line_writes, line_returns,
  line_falls, line-cases,
}
use sdcc.Peep.Scan.{
  S4oRet, s4o_condjmp, s4o_wr_op, s4o_rd_op, s4o_term, s4o_visited, s4o_abort, stop, go_on, ends,
  moves, scan_line, scan_step, scan4op, scan_fuel, do_term_scan, scan_from,
}

module _ (env : Env) (code : List Line) (what : Chars) (plain : PlainLabels env code what) where
  -- What the answer of a scan tells of the line where it began.
  abbrev Tells : S4oRet → ℕ → Type 0
  Tells s4o_rd_op i = MayRead env code what i
  Tells s4o_abort i = MayRead env code what i
  Tells (s4o_condjmp pl j) i =
      (MayRead env code what j → MayRead env code what i)
      × (MayRead env code what (suc pl) → MayRead env code what i)
  Tells _ i = Unit

  Tells-back :
      (r : S4oRet) (i j : ℕ)
      → (MayRead env code what j → MayRead env code what i)
      → Tells r j
      → Tells r i
  Tells-back s4o_rd_op i j f t = f t
  Tells-back s4o_abort i j f t = f t
  Tells-back (s4o_condjmp pl k) i j f (a, b) = ((λ m. f (a m)), λ m. f (b m))
  Tells-back s4o_wr_op i j f t = t
  Tells-back s4o_term i j f t = t
  Tells-back s4o_visited i j f t = t

  abbrev ScanTells : ℕ → Type 0
  ScanTells fuel =
      (visited : List Bool) (i : ℕ) (r : S4oRet) (seen : List Bool)
      → scan4op env code what fuel visited i ≡ some (r, seen)
      → Tells r i

  line-Tells :
      (fuel : ℕ)
      → ScanTells fuel
      → (visited : List Bool) (i : ℕ) (r : S4oRet) (seen : List Bool) → Runs env code what i
      → scan_step env code what visited i ≡ elim (scan_line env code what i) [
        | stop x ↦ ends x (set visited i true)
        | go_on j ↦ moves (set visited i true) (suc j)
      ]
      → scan4op env code what (suc fuel) visited i ≡ some (r, seen)
      → Tells r i
  unfolding scan4op
  line-Tells fuel ih visited i r seen runs e run = elim (line-cases env code what plain i) [
    | line_reads m s ↦
        let out = rw (scan4op, e, s) at run in let same : s4o_rd_op ≡ r = cc in rw (← same) (m runs)
    | line_leaves m s ↦
        let out = rw (scan4op, e, s) at run in let same : s4o_abort ≡ r = cc in rw (← same) (m runs)
    | line_calls nr u unknown w s ↦
        let out = rw (scan4op, e, s) at run in let same : s4o_wr_op ≡ r = cc in rw (← same) tt
    | line_jumps j nr u known s ↦
        Tells-back r i (suc j) (jumps runs u known)
          (ih (set visited i true) (suc j) r seen (rw (scan4op, e, s) at run))
    | line_branches j nr u c known s ↦
        let out = rw (scan4op, e, s) at run in
        let same : s4o_condjmp i j ≡ r = cc in
        rw (← same) (branches runs u c known, branches_not runs u c)
    | line_writes nr u c w s ↦
        let out = rw (scan4op, e, s) at run in let same : s4o_wr_op ≡ r = cc in rw (← same) tt
    | line_returns nr u c t s ↦
        let out = rw (scan4op, e, s) at run in let same : s4o_term ≡ r = cc in rw (← same) tt
    | line_falls nr u c w t s ↦
        Tells-back r i (suc i) (goes_on runs u c w t)
          (ih (set visited i true) (suc i) r seen (rw (scan4op, e, s) at run))
  ]

  scan4op_tells : (fuel : ℕ) → ScanTells fuel
  unfolding scan4op
  scan4op_tells zero visited i r seen run = cc
  scan4op_tells (suc fuel) visited i r seen run = elim (step-cases env code what visited i) [
    | past_end past e ↦
        let out = rw (scan4op, e) at run in
        let same : s4o_abort ≡ r = cc in rw (← same) (runs_out past)
    | passes below skip e ↦
        Tells-back r i (suc i) (passes_by skip)
          (scan4op_tells fuel visited (suc i) r seen (rw (scan4op, e) at run))
    | at_inline line inline e ↦
        let out = rw (scan4op, e) at run in
        let same : s4o_abort ≡ r = cc in rw (← same) (is_inline_asm line inline)
    | seen_before runs v e ↦
        let out = rw (scan4op, e) at run in let same : s4o_visited ≡ r = cc in rw (← same) tt
    | first_time runs v e ↦ line-Tells fuel (scan4op_tells fuel) visited i r seen runs e run
  ]

  abbrev TermTells : ℕ → Type 0
  TermTells fuel =
      (visited : List Bool) (i : ℕ) (seen : List Bool)
      → do_term_scan env code what fuel visited i ≡ some (false, seen)
      → MayRead env code what i

  term_tells :
      (fuel : ℕ)
      → TermTells fuel
      → (visited : List Bool) (i : ℕ) (r : S4oRet) (seen end_seen : List Bool)
      → scan4op env code what (scan_fuel env code what) visited i ≡ some (r, seen)
      → Tells r i
      → do_term_scan env code what (suc fuel) visited i ≡ some (false, end_seen)
      → MayRead env code what i
  unfolding do_term_scan
  term_tells fuel ih visited i s4o_rd_op seen end_seen scan t run = t
  term_tells fuel ih visited i s4o_abort seen end_seen scan t run = t
  term_tells fuel ih visited i s4o_term seen end_seen scan t run =
      let out = rw (do_term_scan, scan) at run in cc
  term_tells fuel ih visited i s4o_visited seen end_seen scan t run =
      let out = rw (do_term_scan, scan) at run in cc
  term_tells fuel ih visited i s4o_wr_op seen end_seen scan t run =
      let out = rw (do_term_scan, scan) at run in cc
  term_tells fuel ih visited i (s4o_condjmp pl j) seen end_seen scan (taken, not_taken) run =
      let out = rw (do_term_scan, scan) at run in
      elim (Option-cases (do_term_scan env code what fuel seen j)) [
        | inl nothing ↦ let bad = rw nothing at out in cc
        | inr ((ok, seen2), e) ↦ elim (Bool-cases ok) [
          | inr not_ok ↦ taken (ih seen j seen2 (rw not_ok at e))
          | inl yes_ok ↦ not_taken (ih seen2 (suc pl) end_seen (rw (e, yes_ok) at out))
        ]
      ]

  do_term_scan_tells : (fuel : ℕ) → TermTells fuel
  unfolding do_term_scan
  do_term_scan_tells zero visited i seen run = cc
  do_term_scan_tells (suc fuel) visited i end_seen run =
      elim (Option-cases (scan4op env code what (scan_fuel env code what) visited i)) [
        | inl nothing ↦ let bad = rw (do_term_scan, nothing) at run in cc
        | inr ((r, seen), e) ↦
            term_tells fuel (do_term_scan_tells fuel) visited i r seen end_seen e
              (scan4op_tells (scan_fuel env code what) visited i r seen e) run
      ]

  pub scan_from_complete :
      (end_pl : ℕ)
      → scan_from env code what end_pl ≡ some false
      → MayRead env code what (suc end_pl)
  unfolding scan_from
  scan_from_complete end_pl run =
      let start = replicate (length code) false in
      elim (Option-cases (do_term_scan env code what (suc (length code)) start (suc end_pl))) [
        | inl nothing ↦ let bad = rw (scan_from, nothing) at run in cc
        | inr ((ok, seen), e) ↦
            let out = rw (scan_from, e) at run in
            let bad : ok ≡ false = cc in
            do_term_scan_tells (suc (length code)) start (suc end_pl) seen (rw bad at e)
      ]
