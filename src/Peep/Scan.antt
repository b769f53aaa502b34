-- ===== src/Peep/Scan.antt =====
-- src/s1c88/peep.c: findLabel, scan4op, doTermScan and s1c88notUsed. The lines are a list; a line
-- is named by its number, and the `visited` flags are a list beside it.
pub mod Cases
pub mod Ends
pub mod Lines
pub mod Seen
pub mod Settled
pub mod Sound
pub mod Complete
use sdcc.Common.{
  ℕ, zero, suc, ◌+◌, ◌-◌, ◌*◌, Bool, true, false, not, ◌&&◌, ◌||◌, List, [], ◌∷◌, ◌++◌, map, Option,
  none, some, ◌==◌, ltb, if◌then◌else◌, length, drop, take, get_or, set, replicate, leb, Chars,
  chars, char_at_start, is_empty, is_space, str_eq, starts,
}
use sdcc.Peep.Text.{text_at, is_some}
use sdcc.Peep.Names.{is_one_of, is_reg, is_u_reg, is_reg_pair}
use sdcc.Peep.Env.{Env, Line, is_parm_in_call}
use sdcc.Peep.Flags.{might_read_flag, surely_writes_flag}
use sdcc.Peep.Reads.{might_read}
use sdcc.Peep.Writes.{call_surely_writes, surely_writes, surely_returns, uncond_jump, cond_jump}

-- The end of a jump behind its last `,` or blank, which the source looks for from the back and not
-- at the first character; none where there is none.
abbrev last_word : Chars → Option Chars
last_word [] = none
last_word (c ∷ s) = elim (last_word s) [
  | some p ↦ some p
  | none ↦ if c == b',' || is_space c then some s else none
]

abbrev pub jump_label : Chars → Option Chars
jump_label line = last_word_behind line
  where
    last_word_behind : Chars → Option Chars
    last_word_behind [] = none
    last_word_behind (c ∷ s) = last_word s

abbrev pub defines_label : Chars → Line → Bool
defines_label p line =
    let text = text_at line.text in
    line.is_label && (starts text p && char_at_start (drop (length p) text) == b':')

-- The number of the first line for which the test holds, counted from `n`.
abbrev pub find_line : (Line → Bool) → List Line → ℕ → Option ℕ
find_line test [] n = none
find_line test (x ∷ xs) n = if test x then some n else find_line test xs (suc n)

unfoldable pub find_label : Env → List Line → Chars → Option ℕ
find_label env code line = elim (jump_label line) [
  | none ↦ none
  | some p ↦ if env.has_label_ref p then find_line (defines_label p) code 0 else none
]

abbrev pub is_flag : Chars → Bool
is_flag what = length what == 2 && char_at_start (drop 1 what) == b'f'

unfoldable pub reads : Env → Chars → Chars → Bool
reads env what line =
    if is_flag what then might_read_flag env.str_str line what else might_read env line what

unfoldable pub writes : Env → Chars → Chars → Bool
writes env what line =
    if is_flag what then surely_writes_flag env.str_str line what else surely_writes env line what

-- The lines that the scan hands back are read behind a conditional jump alone.
pub data S4oRet : Type 0 where
  s4o_condjmp : (pl branch : ℕ) → S4oRet
  s4o_wr_op s4o_rd_op s4o_term s4o_visited s4o_abort : S4oRet

abbrev pub no_line : Line
no_line = record {
  text = none;
  is_debug = false;
  is_comment = false;
  is_label = false;
  is_inline = false;
}

-- The lines that hold no instruction.
abbrev pub is_skipped : Line → Bool
is_skipped line = not (is_some line.text) || line.is_debug || line.is_comment || line.is_label

-- What one round of the loop does behind the marking: stop, or go on from a line.
pub data Round : Type 0 where
  stop : S4oRet → Round
  go_on : ℕ → Round

module _ (env : Env) (code : List Line) (what : Chars) where
  abbrev pub line_at : ℕ → Line
  line_at i = get_or code i no_line

  abbrev pub text_of : ℕ → Chars
  text_of i = text_at (line_at i).text

  -- A jump to no known label is a tail call, or ends the scan.
  unfoldable pub tail_call : Chars → S4oRet
  tail_call line =
      let by_call = if call_surely_writes env line what then s4o_wr_op else s4o_abort in
      elim (env.find_sym (drop 4 line)) [
        | some f ↦ if is_parm_in_call f what then s4o_rd_op else by_call
        | none ↦ by_call
      ]

  -- Behind the unconditional jump, at the line it leads to.
  unfoldable pub after_jump : ℕ → Round
  after_jump i =
      if cond_jump (text_of i)
      then elim (find_label env code (text_of i)) [
        | none ↦ stop s4o_abort
        | some j ↦ stop (s4o_condjmp i j)
      ]
      else if writes env what (text_of i)
      then stop s4o_wr_op
      else if surely_returns (text_of i)
      then stop s4o_term
      else go_on i

  unfoldable pub scan_line : ℕ → Round
  unfolding after_jump tail_call
  scan_line i =
      if reads env what (text_of i)
      then stop s4o_rd_op
      else if uncond_jump (text_of i)
      then elim (find_label env code (text_of i)) [
        | none ↦ stop (tail_call (text_of i))
        | some j ↦ after_jump j
      ]
      else after_jump i

  -- One round of the loop in `scan4op`: it ends, or goes on at a line.
  pub data Step : Type 0 where
    ends : S4oRet → List Bool → Step
    moves : List Bool → ℕ → Step

  unfoldable pub scan_step : List Bool → ℕ → Step
  scan_step visited i =
      if leb (length code) i
      then ends s4o_abort visited
      else if is_skipped (line_at i)
      then moves visited (suc i)
      else if (line_at i).is_inline
      then ends s4o_abort visited
      else if get_or visited i false
      then ends s4o_visited visited
      else elim (scan_line i) [
        | stop r ↦ ends r (set visited i true)
        | go_on j ↦ moves (set visited i true) (suc j)
      ]

  -- none: out of fuel
  unfoldable pub scan4op : ℕ → List Bool → ℕ → Option (S4oRet × List Bool)
  scan4op zero visited i = none
  scan4op (suc fuel) visited i = elim (scan_step visited i) [
    | ends r seen ↦ some (r, seen)
    | moves seen j ↦ scan4op fuel seen j
  ]

  abbrev pub scan_fuel : ℕ
  scan_fuel = suc (suc (length code) * suc (length code))

  unfoldable pub do_term_scan : ℕ → List Bool → ℕ → Option (Bool × List Bool)
  do_term_scan zero visited i = none
  do_term_scan (suc fuel) visited i = elim (scan4op scan_fuel visited i) [
    | none ↦ none
    | some (s4o_term, seen) ↦ some (true, seen)
    | some (s4o_visited, seen) ↦ some (true, seen)
    | some (s4o_wr_op, seen) ↦ some (true, seen)
    | some (s4o_rd_op, seen) ↦ some (false, seen)
    | some (s4o_abort, seen) ↦ some (false, seen)
    | some (s4o_condjmp pl branch, seen) ↦ elim (do_term_scan fuel seen branch) [
      | none ↦ none
      | some (false, seen) ↦ some (false, seen)
      | some (true, seen) ↦ do_term_scan fuel seen (suc pl)
    ]
  ]

  -- The scan of a register that no other name stands for, from behind the line `end_pl`.
  unfoldable pub scan_from : ℕ → Option Bool
  scan_from end_pl =
      elim (do_term_scan (suc (length code)) (replicate (length code) false) (suc end_pl)) [
        | none ↦ none
        | some (ok, seen) ↦ some ok
      ]
