-- ===== src/Peep/Live.antt =====
-- What src/s1c88/peep.c looks for: an execution that may read a register before it surely writes it.
use sdcc.Common.{ℕ, suc, ◌≤◌, ◌≡◌, ◌≢◌, true, false, List, none, some, length, Chars}
use sdcc.Peep.Env.{Env, Line}
use sdcc.Peep.Writes.{surely_returns, uncond_jump, cond_jump}
use sdcc.Peep.Scan.{s4o_wr_op, reads, writes, find_label, tail_call, line_at, text_of, is_skipped}
use sdcc.Peep.Scan.Cases.{Runs}

module _ (env : Env) (code : List Line) (what : Chars) where
  -- From the line on, there is a way through the lines on which nothing surely writes the register
  -- or returns, up to a line that may read it, to inline assembler, to a jump out of the lines that
  -- does not surely write it, or over the end of the lines.
  pub data MayRead : ℕ → Type 0 where
    runs_out : {i : ℕ} → length code ≤ i → MayRead i
    passes_by : {i : ℕ} → is_skipped (line_at env code what i) ≡ true → MayRead (suc i) → MayRead i
    is_inline_asm :
        {i : ℕ}
        → is_skipped (line_at env code what i) ≡ false
        → (line_at env code what i).is_inline ≡ true
        → MayRead i
    reads_it :
        {i : ℕ} → Runs env code what i → reads env what (text_of env code what i) ≡ true → MayRead i
    jumps :
        {i j : ℕ}
        → Runs env code what i
        → uncond_jump (text_of env code what i) ≡ true
        → find_label env code (text_of env code what i) ≡ some j
        → MayRead (suc j)
        → MayRead i
    jumps_out :
        {i : ℕ}
        → Runs env code what i
        → uncond_jump (text_of env code what i) ≡ true
        → find_label env code (text_of env code what i) ≡ none
        → tail_call env code what (text_of env code what i) ≢ s4o_wr_op
        → MayRead i
    branches :
        {i j : ℕ}
        → Runs env code what i
        → uncond_jump (text_of env code what i) ≡ false
        → cond_jump (text_of env code what i) ≡ true
        → find_label env code (text_of env code what i) ≡ some j
        → MayRead j
        → MayRead i
    branches_out :
        {i : ℕ}
        → Runs env code what i
        → uncond_jump (text_of env code what i) ≡ false
        → cond_jump (text_of env code what i) ≡ true
        → find_label env code (text_of env code what i) ≡ none
        → MayRead i
    branches_not :
        {i : ℕ}
        → Runs env code what i
        → uncond_jump (text_of env code what i) ≡ false
        → cond_jump (text_of env code what i) ≡ true
        → MayRead (suc i)
        → MayRead i
    goes_on :
        {i : ℕ}
        → Runs env code what i
        → uncond_jump (text_of env code what i) ≡ false
        → cond_jump (text_of env code what i) ≡ false
        → writes env what (text_of env code what i) ≡ false
        → surely_returns (text_of env code what i) ≡ false
        → MayRead (suc i)
        → MayRead i

  -- The text of a label is no instruction.
  abbrev pub PlainLabels : Type 0
  PlainLabels =
      (j : ℕ)
      → (line_at env code what j).is_label ≡ true
      → (cond_jump (text_of env code what j) ≡ false)
        × (writes env what (text_of env code what j) ≡ false)
        × (surely_returns (text_of env code what j) ≡ false)
