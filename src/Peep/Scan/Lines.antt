-- ===== src/Peep/Scan/Lines.antt =====
-- What scan4op (src/s1c88/peep.c) does at an instruction, by the kind of the instruction.
use sdcc.Common.{
  ℕ, suc, ◌+◌, ◌≡◌, ◌⊎◌, inl, inr, Bool, true, false, List, [], ◌∷◌, none, some, get_or, drop,
  arith, Chars, Bool-cases, Option-cases, if◌then◌else◌,
}
use sdcc.Peep.Env.{Env, Line, is_parm_in_call}
use sdcc.Peep.Writes.{surely_returns, uncond_jump, cond_jump, call_surely_writes}
use sdcc.Peep.Live.{PlainLabels, MayRead, jumps_out, reads_it, branches_out}
use sdcc.Peep.Scan.Cases.{Runs}
use sdcc.Peep.Scan.{
  s4o_condjmp, s4o_wr_op, s4o_rd_op, s4o_term, s4o_abort, stop, go_on, reads, writes, find_label,
  find_line, defines_label, jump_label, tail_call, line_at, text_of, after_jump, scan_line, no_line,
}

find_line-get_or :
    (test : Line → Bool) (xs : List Line) (n j : ℕ)
    → find_line test xs n ≡ some j
    → (k : ℕ) × (j ≡ n + k) × (test (get_or xs k no_line) ≡ true)
find_line-get_or test [] n j h = cc
find_line-get_or test (x ∷ xs) n j h = elim (Bool-cases (test x)) [
  | inl found ↦ (0, ground arith, found)
  | inr not_here ↦
      let (k, e, t) = find_line-get_or test xs (suc n) j (rw not_here at h) in
      (suc k, omega arith, t)
]

module _ (env : Env) (code : List Line) (what : Chars) where
  -- A jump leads to a label.
  find_label-is_label :
      (line : Chars) (j : ℕ)
      → find_label env code line ≡ some j
      → (line_at env code what j).is_label ≡ true
  unfolding find_label
  find_label-is_label line j h = elim (Option-cases (jump_label line)) [
    | inl nothing ↦ let bad = rw (find_label, nothing) at h in cc
    | inr (p, e) ↦ elim (Bool-cases (env.has_label_ref p)) [
      | inl known ↦
          let (k, same, t) =
            find_line-get_or (defines_label p) code 0 j (rw (find_label, e, known) at h) in
          let here : j ≡ k = omega arith in rw here (ground arith)
      | inr unknown ↦ let bad = rw (find_label, e, unknown) at h in cc
    ]
  ]

  pub data LineCase (i : ℕ) : Type 0 where
    line_reads :
        (Runs env code what i → MayRead env code what i)
        → scan_line env code what i ≡ stop s4o_rd_op
        → LineCase i
    line_leaves :
        (Runs env code what i → MayRead env code what i)
        → scan_line env code what i ≡ stop s4o_abort
        → LineCase i
    line_calls :
        reads env what (text_of env code what i) ≡ false
        → uncond_jump (text_of env code what i) ≡ true
        → find_label env code (text_of env code what i) ≡ none
        → tail_call env code what (text_of env code what i) ≡ s4o_wr_op
        → scan_line env code what i ≡ stop s4o_wr_op
        → LineCase i
    line_jumps :
        (j : ℕ)
        → reads env what (text_of env code what i) ≡ false
        → uncond_jump (text_of env code what i) ≡ true
        → find_label env code (text_of env code what i) ≡ some j
        → scan_line env code what i ≡ go_on j
        → LineCase i
    line_branches :
        (j : ℕ)
        → reads env what (text_of env code what i) ≡ false
        → uncond_jump (text_of env code what i) ≡ false
        → cond_jump (text_of env code what i) ≡ true
        → find_label env code (text_of env code what i) ≡ some j
        → scan_line env code what i ≡ stop (s4o_condjmp i j)
        → LineCase i
    line_writes :
        reads env what (text_of env code what i) ≡ false
        → uncond_jump (text_of env code what i) ≡ false
        → cond_jump (text_of env code what i) ≡ false
        → writes env what (text_of env code what i) ≡ true
        → scan_line env code what i ≡ stop s4o_wr_op
        → LineCase i
    line_returns :
        reads env what (text_of env code what i) ≡ false
        → uncond_jump (text_of env code what i) ≡ false
        → cond_jump (text_of env code what i) ≡ false
        → surely_returns (text_of env code what i) ≡ true
        → scan_line env code what i ≡ stop s4o_term
        → LineCase i
    line_falls :
        reads env what (text_of env code what i) ≡ false
        → uncond_jump (text_of env code what i) ≡ false
        → cond_jump (text_of env code what i) ≡ false
        → writes env what (text_of env code what i) ≡ false
        → surely_returns (text_of env code what i) ≡ false
        → scan_line env code what i ≡ go_on i
        → LineCase i

  abbrev CallCases : Chars → Type 0
  CallCases line =
      (tail_call env code what line ≡ s4o_wr_op)
      ⊎ ((tail_call env code what line ≡ s4o_rd_op) ⊎ (tail_call env code what line ≡ s4o_abort))

  no_parm-cases :
      (line : Chars)
      → tail_call env code what line
        ≡ (if call_surely_writes env line what then s4o_wr_op else s4o_abort)
      → CallCases line
  no_parm-cases line h = elim (Bool-cases (call_surely_writes env line what)) [
    | inl w ↦ inl (rw w at h)
    | inr w ↦ inr (inr (rw w at h))
  ]

  tail_call-cases : (line : Chars) → CallCases line
  unfolding tail_call
  tail_call-cases line = elim (Option-cases (env.find_sym (drop 4 line))) [
    | inl nothing ↦ no_parm-cases line (rw (tail_call, nothing))
    | inr (f, e) ↦ elim (Bool-cases (is_parm_in_call f what)) [
      | inl parm ↦ inr (inl (rw (tail_call, e, parm)))
      | inr no_parm ↦ no_parm-cases line (rw (tail_call, e, no_parm))
    ]
  ]

  -- A jump goes on behind its label.
  after_jump-label :
      PlainLabels env code what
      → (line : Chars) (j : ℕ) → find_label env code line ≡ some j
      → after_jump env code what j ≡ go_on j
  unfolding after_jump
  after_jump-label plain line j h =
      let (no_branch, no_write, no_return) = plain j (find_label-is_label line j h) in
      rw (after_jump, no_branch, no_write, no_return)

  jump-case :
      PlainLabels env code what
      → (i : ℕ) → reads env what (text_of env code what i) ≡ false
      → uncond_jump (text_of env code what i) ≡ true
      → LineCase i
  unfolding scan_line
  jump-case plain i r u = elim (Option-cases (find_label env code (text_of env code what i))) [
    | inl unknown ↦ elim (tail_call-cases (text_of env code what i)) [
      | inl w ↦ line_calls r u unknown w (rw (scan_line, r, u, unknown, w))
      | inr (inl c) ↦
          line_reads (λ runs. jumps_out runs u unknown (λ w. cc)) (rw (scan_line, r, u, unknown, c))
      | inr (inr c) ↦
          line_leaves (λ runs. jumps_out runs u unknown (λ w. cc))
            (rw (scan_line, r, u, unknown, c))
    ]
    | inr (j, e) ↦
        line_jumps j r u e
          (rw (scan_line, r, u, e) (after_jump-label plain (text_of env code what i) j e))
  ]

  step-case :
      (i : ℕ)
      → reads env what (text_of env code what i) ≡ false
      → uncond_jump (text_of env code what i) ≡ false
      → cond_jump (text_of env code what i) ≡ false
      → LineCase i
  unfolding scan_line after_jump
  step-case i r u c = elim (Bool-cases (writes env what (text_of env code what i))) [
    | inl w ↦ line_writes r u c w (rw (scan_line, r, u, after_jump, c, w))
    | inr w ↦ elim (Bool-cases (surely_returns (text_of env code what i))) [
      | inl t ↦ line_returns r u c t (rw (scan_line, r, u, after_jump, c, w, t))
      | inr t ↦ line_falls r u c w t (rw (scan_line, r, u, after_jump, c, w, t))
    ]
  ]

  pub line-cases : PlainLabels env code what → (i : ℕ) → LineCase i
  unfolding scan_line after_jump
  line-cases plain i = elim (Bool-cases (reads env what (text_of env code what i))) [
    | inl r ↦ line_reads (λ runs. reads_it runs r) (rw (scan_line, r))
    | inr r ↦ elim (Bool-cases (uncond_jump (text_of env code what i))) [
      | inl u ↦ jump-case plain i r u
      | inr u ↦ elim (Bool-cases (cond_jump (text_of env code what i))) [
        | inl c ↦ elim (Option-cases (find_label env code (text_of env code what i))) [
          | inl unknown ↦
              line_leaves (λ runs. branches_out runs u c unknown)
                (rw (scan_line, r, u, after_jump, c, unknown))
          | inr (j, e) ↦ line_branches j r u c e (rw (scan_line, r, u, after_jump, c, e))
        ]
        | inr c ↦ step-case i r u c
      ]
    ]
  ]
