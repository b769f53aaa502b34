-- ===== src/Peep/Scan/Sound.antt =====
-- A scan of src/s1c88/peep.c that ends well leaves no execution that may read the register.
use sdcc.Common.{
  ℕ, zero, suc, ◌≡◌, ◌⊎◌, refl, ◌∙◌, inl, inr, Bool, true, false, List, Option, some, get_or,
  get_or-replicate, set, length, length-set, length-replicate, replicate, Chars, Bool-cases,
  Option-cases,
}
use sdcc.Peep.Env.{Env, Line}
use sdcc.Peep.Live.{MayRead, PlainLabels}
use sdcc.Peep.Scan.Cases.{Runs, past_end, passes, at_inline, seen_before, first_time, step-cases}
use sdcc.Peep.Scan.Ends.{is_condjmp}
use sdcc.Peep.Scan.Lines.{
  line_reads, line_leaves, line_calls, line_jumps, line_branches, line_writes, line_returns,
  line_falls, line-cases,
}
use sdcc.Peep.Scan.Seen.{Sub, IsMet, met, behind, IsMet-mono, IsSettled, IsSettled-mono, never_read}
use sdcc.Peep.Scan.Settled.{
  is_bad, IsPending, pending, Scanned, marked-Scanned, moved-Scanned, IsSettled-call,
  IsSettled-jump, IsSettled-branch, IsSettled-step,
}
use sdcc.Peep.Scan.{
  S4oRet, s4o_condjmp, s4o_wr_op, s4o_rd_op, s4o_term, s4o_visited, s4o_abort, stop, go_on, ends,
  moves, scan_line, scan_step, scan4op, scan_fuel, do_term_scan, scan_from,
}

abbrev answer : S4oRet → List Bool → Option (S4oRet × List Bool)
answer r seen = some (r, seen)

module _ (env : Env) (code : List Line) (what : Chars) (plain : PlainLabels env code what) where
  abbrev ScanSound : ℕ → Type 0
  ScanSound fuel =
      (visited : List Bool) (i : ℕ) (r : S4oRet) (seen : List Bool)
      → length visited ≡ length code
      → scan4op env code what fuel visited i ≡ some (r, seen)
      → is_bad r ≡ false
      → Scanned env code what visited r seen i

  marked_end :
      (visited : List Bool) (i : ℕ) (r r' : S4oRet) (seen : List Bool)
      → length visited ≡ length code
      → Runs env code what i
      → (IsSettled env code what (set visited i true) i ⊎ IsPending env code what r' i)
      → answer r' (set visited i true) ≡ answer r seen
      → Scanned env code what visited r seen i
  marked_end visited i r r' seen l runs account e =
      let same_r : r' ≡ r = cc in
      let same_seen : set visited i true ≡ seen = cc in
      rw (← same_r, ← same_seen) (marked-Scanned env code what visited i r' l runs account)

  -- The first time at an instruction.
  line_sound :
      (fuel : ℕ)
      → ScanSound fuel
      → (visited : List Bool) (i : ℕ) (r : S4oRet) (seen : List Bool) → length visited ≡ length code
      → Runs env code what i
      → scan_step env code what visited i ≡ elim (scan_line env code what i) [
        | stop x ↦ ends x (set visited i true)
        | go_on j ↦ moves (set visited i true) (suc j)
      ]
      → scan4op env code what (suc fuel) visited i ≡ some (r, seen)
      → is_bad r ≡ false
      → Scanned env code what visited r seen i
  unfolding scan4op
  line_sound fuel ih visited i r seen l runs e run good = elim (line-cases env code what plain i) [
    | line_reads m s ↦ let out = rw (scan4op, e, s) at run in cc
    | line_leaves m s ↦ let out = rw (scan4op, e, s) at run in cc
    | line_calls nr u unknown w s ↦
        marked_end visited i r s4o_wr_op seen l runs
          (inl (IsSettled-call env code what nr u unknown w)) (rw (scan4op, e, s) at run)
    | line_jumps j nr u known s ↦
        moved-Scanned env code what visited i j r seen l runs
          (IsSettled-jump env code what nr u known)
          (ih (set visited i true) (suc j) r seen (length-set visited i true ∙ l)
            (rw (scan4op, e, s) at run) good)
    | line_branches j nr u c known s ↦
        marked_end visited i r (s4o_condjmp i j) seen l runs (inr (pending nr u c known))
          (rw (scan4op, e, s) at run)
    | line_writes nr u c w s ↦
        marked_end visited i r s4o_wr_op seen l runs
          (inl (IsSettled-step env code what nr u c (λ w' t'. cc))) (rw (scan4op, e, s) at run)
    | line_returns nr u c t s ↦
        marked_end visited i r s4o_term seen l runs
          (inl (IsSettled-step env code what nr u c (λ w' t'. cc))) (rw (scan4op, e, s) at run)
    | line_falls nr u c w t s ↦
        moved-Scanned env code what visited i i r seen l runs
          (λ m. IsSettled-step env code what nr u c (λ w' t'. m))
          (ih (set visited i true) (suc i) r seen (length-set visited i true ∙ l)
            (rw (scan4op, e, s) at run) good)
  ]

  scan4op_sound : (fuel : ℕ) → ScanSound fuel
  unfolding scan4op
  scan4op_sound zero visited i r seen l run good = cc
  scan4op_sound (suc fuel) visited i r seen l run good = elim (step-cases env code what visited i) [
    | past_end past e ↦ let out = rw (scan4op, e) at run in cc
    | passes below skip e ↦
        let (l', sub, m, account) =
          scan4op_sound fuel visited (suc i) r seen l (rw (scan4op, e) at run) good in
        (l', sub, behind below skip m, account)
    | at_inline line inline e ↦ let out = rw (scan4op, e) at run in cc
    | seen_before runs v e ↦
        let out = rw (scan4op, e) at run in
        let same : visited ≡ seen = cc in rw (← same) (l, (λ k h. h), met runs v, λ k h. inl h)
    | first_time runs v e ↦ line_sound fuel (scan4op_sound fuel) visited i r seen l runs e run good
  ]

  -- All that is newly visited is settled.
  abbrev TermScanned : List Bool → List Bool → ℕ → Type 0
  TermScanned visited seen i =
      (length seen ≡ length code)
      × Sub visited seen
      × IsMet env code what seen i
      × ((k : ℕ)
          → get_or seen k false ≡ true
          → (get_or visited k false ≡ true) ⊎ IsSettled env code what seen k)

  abbrev TermSound : ℕ → Type 0
  TermSound fuel =
      (visited : List Bool) (i : ℕ) (seen : List Bool)
      → length visited ≡ length code
      → do_term_scan env code what fuel visited i ≡ some (true, seen)
      → TermScanned visited seen i

  ended :
      (visited : List Bool) (i : ℕ) (r : S4oRet) (seen end_seen : List Bool)
      → ((k : ℕ) → ¬ IsPending env code what r k)
      → seen ≡ end_seen
      → Scanned env code what visited r seen i
      → TermScanned visited end_seen i
  ended visited i r seen end_seen none_pending e (l, sub, m, account) = rw (← e) (
    l,
    sub,
    m,
    λ k h. elim (account k h) [
      | inl old ↦ inl old
      | inr (inl settled) ↦ inr settled
      | inr (inr p) ↦ absurd (none_pending k p)
    ],
  )

  pending_condjmp : {r : S4oRet} {k : ℕ} → IsPending env code what r k → is_condjmp r ≡ true
  pending_condjmp (pending nr u c e) = refl

  pending-IsSettled :
      {seen : List Bool} {pl j k : ℕ}
      → IsPending env code what (s4o_condjmp pl j) k
      → IsMet env code what seen j
      → IsMet env code what seen (suc pl)
      → IsSettled env code what seen k
  pending-IsSettled (pending nr u c e) m next = IsSettled-branch env code what nr u c e m next

  -- Both ways of a conditional jump.
  both_ways :
      (visited seen seen2 end_seen : List Bool) (i pl j : ℕ)
      → Scanned env code what visited (s4o_condjmp pl j) seen i
      → TermScanned seen seen2 j
      → TermScanned seen2 end_seen (suc pl)
      → TermScanned visited end_seen i
  both_ways visited seen seen2 end_seen i pl j (l, sub, m, account) (l2, sub2, m2, account2)
        (l3, sub3, m3, account3) =
      (
        l3,
        λ k h. sub3 k (sub2 k (sub k h)),
        IsMet-mono env code what (λ k h. sub3 k (sub2 k h)) m,
        λ k h. elim (account3 k h) [
          | inr settled ↦ inr settled
          | inl old2 ↦ elim (account2 k old2) [
            | inr settled ↦ inr (IsSettled-mono env code what sub3 settled)
            | inl old1 ↦ elim (account k old1) [
              | inl old ↦ inl old
              | inr (inl settled) ↦
                  inr (IsSettled-mono env code what (λ k h. sub3 k (sub2 k h)) settled)
              | inr (inr p) ↦ inr (pending-IsSettled p (IsMet-mono env code what sub3 m2) m3)
            ]
          ]
        ],
      )

  term_after :
      (fuel : ℕ)
      → TermSound fuel
      → (visited : List Bool) (i : ℕ) (r : S4oRet) (seen end_seen : List Bool)
      → scan4op env code what (scan_fuel env code what) visited i ≡ some (r, seen)
      → (is_bad r ≡ false → Scanned env code what visited r seen i)
      → do_term_scan env code what (suc fuel) visited i ≡ some (true, end_seen)
      → TermScanned visited end_seen i
  unfolding do_term_scan
  term_after fuel ih visited i s4o_rd_op seen end_seen scan sound run =
      let out = rw (do_term_scan, scan) at run in cc
  term_after fuel ih visited i s4o_abort seen end_seen scan sound run =
      let out = rw (do_term_scan, scan) at run in cc
  term_after fuel ih visited i s4o_term seen end_seen scan sound run =
      let out = rw (do_term_scan, scan) at run in
      ended visited i s4o_term seen end_seen (λ k p. (let c = pending_condjmp p in cc)) (cc)
        (sound refl)
  term_after fuel ih visited i s4o_visited seen end_seen scan sound run =
      let out = rw (do_term_scan, scan) at run in
      ended visited i s4o_visited seen end_seen (λ k p. (let c = pending_condjmp p in cc)) (cc)
        (sound refl)
  term_after fuel ih visited i s4o_wr_op seen end_seen scan sound run =
      let out = rw (do_term_scan, scan) at run in
      ended visited i s4o_wr_op seen end_seen (λ k p. (let c = pending_condjmp p in cc)) (cc)
        (sound refl)
  term_after fuel ih visited i (s4o_condjmp pl j) seen end_seen scan sound run =
      let out = rw (do_term_scan, scan) at run in
      let (l, sub, m, account) = sound refl in
      elim (Option-cases (do_term_scan env code what fuel seen j)) [
        | inl nothing ↦ let bad = rw nothing at out in cc
        | inr ((ok, seen2), e) ↦ elim (Bool-cases ok) [
          | inr not_ok ↦ let bad = rw (e, not_ok) at out in cc
          | inl yes_ok ↦
              let first = ih seen j seen2 l (rw yes_ok at e) in
              both_ways visited seen seen2 end_seen i pl j (sound refl) first
                (ih seen2 (suc pl) end_seen first.0 (rw (e, yes_ok) at out))
        ]
      ]

  do_term_scan_sound : (fuel : ℕ) → TermSound fuel
  unfolding do_term_scan
  do_term_scan_sound zero visited i seen l run = cc
  do_term_scan_sound (suc fuel) visited i end_seen l run =
      elim (Option-cases (scan4op env code what (scan_fuel env code what) visited i)) [
        | inl nothing ↦ let bad = rw (do_term_scan, nothing) at run in cc
        | inr ((r, seen), e) ↦
            term_after fuel (do_term_scan_sound fuel) visited i r seen end_seen e
              (scan4op_sound (scan_fuel env code what) visited i r seen l e) run
      ]

  -- What the scan finds unused, no execution reads.
  pub scan_from_sound :
      (end_pl : ℕ)
      → scan_from env code what end_pl ≡ some true
      → ¬ MayRead env code what (suc end_pl)
  unfolding scan_from
  scan_from_sound end_pl run m =
      let start = replicate (length code) false in
      elim (Option-cases (do_term_scan env code what (suc (length code)) start (suc end_pl))) [
        | inl nothing ↦ let bad = rw (scan_from, nothing) at run in cc
        | inr ((ok, seen), e) ↦
            let out = rw (scan_from, e) at run in
            let good : ok ≡ true = cc in
            let (l, sub, ok_met, account) =
              do_term_scan_sound (suc (length code)) start (suc end_pl) seen
                (length-replicate (length code) false) (rw good at e) in
            never_read env code what
              (λ k h. elim (account k h) [
                | inr settled ↦ settled
                | inl old ↦ let never = get_or-replicate (length code) k false in cc
              ])
              m ok_met
      ]
