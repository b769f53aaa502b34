-- ===== src/Peep/Scan/Seen.antt =====
-- The lines that a scan has visited (src/s1c88/peep.c): when they are settled, no execution reads the
-- register.
use sdcc.Common.{
  ℕ, suc, ◌<◌, ◌≡◌, Bool, true, false, List, none, some, get_or, length, arith, Chars,
}
use sdcc.Peep.Env.{Env, Line}
use sdcc.Peep.Writes.{surely_returns, uncond_jump, cond_jump}
use sdcc.Peep.Live.{
  MayRead, runs_out, passes_by, is_inline_asm, reads_it, jumps, jumps_out, branches, branches_out,
  branches_not, goes_on,
}
use sdcc.Peep.Scan.Cases.{Runs}
use sdcc.Peep.Scan.{s4o_wr_op, reads, writes, find_label, tail_call, line_at, text_of, is_skipped}

abbrev pub Sub : List Bool → List Bool → Type 0
Sub v w = (k : ℕ) → get_or v k false ≡ true → get_or w k false ≡ true

module _ (env : Env) (code : List Line) (what : Chars) where
  -- The next instruction from the line on is visited.
  pub data IsMet (seen : List Bool) : ℕ → Type 0 where
    met : {i : ℕ} → Runs env code what i → get_or seen i false ≡ true → IsMet seen i
    behind :
        {i : ℕ}
        → i < length code
        → is_skipped (line_at env code what i) ≡ true
        → IsMet seen (suc i)
        → IsMet seen i

  pub IsMet-mono : {v w : List Bool} {i : ℕ} → Sub v w → IsMet v i → IsMet w i
  IsMet-mono {i = i} s (met runs h) = met runs (s i h)
  IsMet-mono s (behind below skip m) = behind below skip (IsMet-mono s m)

  met-Runs :
      {seen : List Bool} {i : ℕ} → Runs env code what i → IsMet seen i → get_or seen i false ≡ true
  met-Runs runs (met _ h) = h
  met-Runs (below, line, plain) (behind _ skip m) = cc

  met-skip :
      {seen : List Bool} {i : ℕ}
      → is_skipped (line_at env code what i) ≡ true
      → IsMet seen i
      → IsMet seen (suc i)
  met-skip skip (met (below, line, plain) h) = cc
  met-skip skip (behind _ _ m) = m

  -- What the scan has found out about an instruction.
  pub record IsSettled (seen : List Bool) (i : ℕ) : Type 0 where
    pub no_read : reads env what (text_of env code what i) ≡ false
    pub target_met :
        (j : ℕ)
        → uncond_jump (text_of env code what i) ≡ true
        → find_label env code (text_of env code what i) ≡ some j
        → IsMet seen (suc j)
    pub written_outside :
        uncond_jump (text_of env code what i) ≡ true
        → find_label env code (text_of env code what i) ≡ none
        → tail_call env code what (text_of env code what i) ≡ s4o_wr_op
    pub has_branch :
        uncond_jump (text_of env code what i) ≡ false
        → cond_jump (text_of env code what i) ≡ true
        → (j : ℕ) × (find_label env code (text_of env code what i) ≡ some j) × IsMet seen j
    pub next_met :
        uncond_jump (text_of env code what i) ≡ false
        → cond_jump (text_of env code what i) ≡ true
        → IsMet seen (suc i)
    pub falls_met :
        uncond_jump (text_of env code what i) ≡ false
        → cond_jump (text_of env code what i) ≡ false
        → writes env what (text_of env code what i) ≡ false
        → surely_returns (text_of env code what i) ≡ false
        → IsMet seen (suc i)

  pub IsSettled-mono : {v w : List Bool} {i : ℕ} → Sub v w → IsSettled v i → IsSettled w i
  IsSettled-mono s d = record {
    no_read = d.no_read;
    target_met = λ j u e. IsMet-mono s (d.target_met j u e);
    written_outside = d.written_outside;
    has_branch = λ u c. (let (j, e, m) = d.has_branch u c in (j, e, IsMet-mono s m));
    next_met = λ u c. IsMet-mono s (d.next_met u c);
    falls_met = λ u c w t. IsMet-mono s (d.falls_met u c w t);
  }

  -- When all visited lines are settled, no execution reads the register.
  pub never_read :
      {seen : List Bool}
      → ((k : ℕ) → get_or seen k false ≡ true → IsSettled seen k)
      → {i : ℕ} → MayRead env code what i
      → ¬ IsMet seen i
  never_read all (runs_out past) (met runs h) = omega arith
  never_read all (runs_out past) (behind below skip m) = omega arith
  never_read all (passes_by skip m) ok = never_read all m (met-skip skip ok)
  never_read all (is_inline_asm line inline) (met runs h) = cc
  never_read all (is_inline_asm line inline) (behind below skip m) = cc
  never_read all {i} (reads_it runs r) ok =
      let d = all i (met-Runs runs ok) in let no = d.no_read in cc
  never_read all {i} (jumps {j = j} runs u e m) ok =
      never_read all m ((all i (met-Runs runs ok)).target_met j u e)
  never_read all {i} (jumps_out runs u e leaves) ok =
      leaves ((all i (met-Runs runs ok)).written_outside u e)
  never_read all {i} (branches {j = j} runs u c e m) ok =
      let (j', e', ok') = (all i (met-Runs runs ok)).has_branch u c in
      let same : j' ≡ j = cc in never_read all m (rw same at ok')
  never_read all {i} (branches_out runs u c e) ok =
      let (j', e', ok') = (all i (met-Runs runs ok)).has_branch u c in cc
  never_read all {i} (branches_not runs u c m) ok =
      never_read all m ((all i (met-Runs runs ok)).next_met u c)
  never_read all {i} (goes_on runs u c w t m) ok =
      never_read all m ((all i (met-Runs runs ok)).falls_met u c w t)
