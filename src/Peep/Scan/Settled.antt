-- ===== src/Peep/Scan/Settled.antt =====
-- How a scan of src/s1c88/peep.c accounts for the lines that it visits.
use sdcc.Common.{
  ℕ, suc, ◌<◌, ◌≡◌, ◌⊎◌, ◌∙◌, inl, inr, Bool, true, false, List, none, some, get_or, set,
  get_or-set, length, length-set, ◌==◌, arith, Chars, Bool-cases,
}
use sdcc.Peep.Env.{Env, Line}
use sdcc.Peep.Writes.{surely_returns, uncond_jump, cond_jump}
use sdcc.Peep.Scan.Cases.{Runs}
use sdcc.Peep.Scan.Seen.{Sub, IsMet, met, IsSettled}
use sdcc.Peep.Scan.{
  S4oRet, s4o_condjmp, s4o_wr_op, s4o_rd_op, s4o_abort, reads, writes, find_label, tail_call,
  text_of,
}

set_self : (bs : List Bool) (i : ℕ) → i < length bs → get_or (set bs i true) i false ≡ true
set_self bs i h = rw (get_or-set bs i i true false h) (ground arith)

set-Sub : (bs : List Bool) (i : ℕ) → i < length bs → Sub bs (set bs i true)
set-Sub bs i h k e = rw (get_or-set bs i k true false h) (ground arith)

set-inv :
    (bs : List Bool) (i k : ℕ)
    → i < length bs
    → get_or (set bs i true) k false ≡ true
    → (k ≡ i) ⊎ (get_or bs k false ≡ true)
set-inv bs i k h e =
    let e' = rw (get_or-set bs i k true false h) at e in
    elim (Bool-cases (i == k)) [ inl same ↦ inl (ground arith) | inr other ↦ inr (rw other at e') ]

abbrev pub is_bad : S4oRet → Bool
is_bad s4o_rd_op = true
is_bad s4o_abort = true
is_bad _ = false

module _ (env : Env) (code : List Line) (what : Chars) where
  -- The conditional jump at which a scan has stopped.
  pub data IsPending : S4oRet → ℕ → Type 0 where
    pending :
        {k j : ℕ}
        → reads env what (text_of env code what k) ≡ false
        → uncond_jump (text_of env code what k) ≡ false
        → cond_jump (text_of env code what k) ≡ true
        → find_label env code (text_of env code what k) ≡ some j
        → IsPending (s4o_condjmp k j) k

  abbrev pub Accounted : List Bool → S4oRet → List Bool → ℕ → Type 0
  Accounted visited r seen k =
      (get_or visited k false ≡ true) ⊎ (IsSettled env code what seen k ⊎ IsPending r k)

  abbrev pub Scanned : List Bool → S4oRet → List Bool → ℕ → Type 0
  Scanned visited r seen i =
      (length seen ≡ length code)
      × Sub visited seen
      × IsMet env code what seen i
      × ((k : ℕ) → get_or seen k false ≡ true → Accounted visited r seen k)

  -- The scan stops at a line that it has just marked.
  pub marked-Scanned :
      (visited : List Bool) (i : ℕ) (r : S4oRet)
      → length visited ≡ length code
      → Runs env code what i
      → (IsSettled env code what (set visited i true) i ⊎ IsPending r i)
      → Scanned visited r (set visited i true) i
  marked-Scanned visited i r l runs account =
      let below : i < length visited = omega arith in
      (
        length-set visited i true ∙ l,
        set-Sub visited i below,
        met runs (set_self visited i below),
        λ k h. elim (set-inv visited i k below h) [
          | inl same ↦ rw same (inr account)
          | inr old ↦ inl old
        ],
      )

  -- The scan goes on from a line that it has just marked.
  pub moved-Scanned :
      (visited : List Bool) (i j : ℕ) (r : S4oRet) (seen : List Bool)
      → length visited ≡ length code
      → Runs env code what i
      → (IsMet env code what seen (suc j) → IsSettled env code what seen i)
      → Scanned (set visited i true) r seen (suc j)
      → Scanned visited r seen i
  moved-Scanned visited i j r seen l runs settle (l', sub, next, account) =
      let below : i < length visited = omega arith in
      (
        l',
        λ k h. sub k (set-Sub visited i below k h),
        met runs (sub i (set_self visited i below)),
        λ k h. elim (account k h) [
          | inl old ↦ elim (set-inv visited i k below old) [
            | inl same ↦ rw same (inr (inl (settle next)))
            | inr older ↦ inl older
          ]
          | inr new ↦ inr new
        ],
      )

  pub IsSettled-call :
      {seen : List Bool} {i : ℕ}
      → reads env what (text_of env code what i) ≡ false
      → uncond_jump (text_of env code what i) ≡ true
      → find_label env code (text_of env code what i) ≡ none
      → tail_call env code what (text_of env code what i) ≡ s4o_wr_op
      → IsSettled env code what seen i
  IsSettled-call r u e w = record {
    no_read = r;
    target_met = λ j u' e'. cc;
    written_outside = λ u' e'. w;
    has_branch = λ u' c. cc;
    next_met = λ u' c. cc;
    falls_met = λ u' c w' t. cc;
  }

  pub IsSettled-jump :
      {seen : List Bool} {i j : ℕ}
      → reads env what (text_of env code what i) ≡ false
      → uncond_jump (text_of env code what i) ≡ true
      → find_label env code (text_of env code what i) ≡ some j
      → IsMet env code what seen (suc j)
      → IsSettled env code what seen i
  IsSettled-jump {j = j} r u e m = record {
    no_read = r;
    target_met = λ j' u' e'. (let same : j ≡ j' = cc in rw same at m);
    written_outside = λ u' e'. cc;
    has_branch = λ u' c. cc;
    next_met = λ u' c. cc;
    falls_met = λ u' c w' t. cc;
  }

  pub IsSettled-branch :
      {seen : List Bool} {i j : ℕ}
      → reads env what (text_of env code what i) ≡ false
      → uncond_jump (text_of env code what i) ≡ false
      → cond_jump (text_of env code what i) ≡ true
      → find_label env code (text_of env code what i) ≡ some j
      → IsMet env code what seen j
      → IsMet env code what seen (suc i)
      → IsSettled env code what seen i
  IsSettled-branch {j = j} r u c e m next = record {
    no_read = r;
    target_met = λ j' u' e'. cc;
    written_outside = λ u' e'. cc;
    has_branch = λ u' c'. (j, e, m);
    next_met = λ u' c'. next;
    falls_met = λ u' c' w' t. cc;
  }

  pub IsSettled-step :
      {seen : List Bool} {i : ℕ}
      → reads env what (text_of env code what i) ≡ false
      → uncond_jump (text_of env code what i) ≡ false
      → cond_jump (text_of env code what i) ≡ false
      → (writes env what (text_of env code what i) ≡ false
          → surely_returns (text_of env code what i) ≡ false
          → IsMet env code what seen (suc i))
      → IsSettled env code what seen i
  IsSettled-step r u c next = record {
    no_read = r;
    target_met = λ j' u' e'. cc;
    written_outside = λ u' e'. cc;
    has_branch = λ u' c'. cc;
    next_met = λ u' c'. cc;
    falls_met = λ u' c' w' t. next w' t;
  }
