-- ===== src/Peep/Reads.antt =====
-- src/s1c88/peep.c, `s1c88MightRead`: which lines may read a register.
use sdcc.Common.{
  ℕ, Bool, true, false, not, ◌&&◌, ◌||◌, List, [], ◌∷◌, Option, none, some, ◌==◌, ltb,
  if◌then◌else◌, length, drop, take, Chars, chars, char_at_start, str_eq, starts, strchr, has_char,
  has_str, skip_spaces,
}
use sdcc.Peep.Text.{isinst, isinst_any, arg_cont, text_at, left_at}
use sdcc.Peep.Names.{is_one_of}
use sdcc.Peep.Env.{Env, is_returned, is_parm_in_call, might_be_parm}

-- `strchr (p, c) != 0`, which finds the terminator too
abbrev strchr_any : Chars → ℕ → Bool
strchr_any p c = c == 0 || has_char p c

abbrev pub whole_index : Chars → Chars
whole_index what =
    if is_one_of what (chars "iyl" ∷ chars "iyh" ∷ [])
    then chars "iy"
    else if is_one_of what (chars "ixl" ∷ chars "ixh" ∷ [])
    then chars "ix"
    else what

-- The calls whose callee takes its arguments in registers of its own.
abbrev reads_helper_call : Chars → Chars → Bool
reads_helper_call line what =
    (isinst line (chars "call") && str_eq what (chars "sp"))
    || (str_eq line (chars "call\t__initrleblock") && (has_char what b'd' || has_char what b'e'))
    || (str_eq line (chars "call\t___sdcc_call_hl") && (has_char what b'h' || has_char what b'l'))
    || (str_eq line (chars "call\t___sdcc_call_iy") && has_str what (chars "iy"))
    || (starts line (chars "call\t___sdcc_bcall_")
        && (strchr_any what (char_at_start (drop 19 line))
            || strchr_any what (char_at_start (drop 20 line))
            || strchr_any what (char_at_start (drop 21 line))))

abbrev reads_call : Env → Chars → Chars → Bool
reads_call env line what = elim (env.find_sym (drop 6 line)) [
  | some f ↦ if f.is_func then is_parm_in_call f what else might_be_parm env what
  | none ↦ might_be_parm env what
]

-- A `;pcall` marks a call by `ret`.
abbrev reads_ret : Env → Chars → Chars → Bool
reads_ret env line what =
    is_returned env what
    || (has_str line (chars ";pcall") && might_be_parm env what)
    || str_eq what (chars "sp")

-- The exchanges that are known; none for another line.
abbrev reads_exchange : Chars → Chars → Option Bool
reads_exchange line what =
    if is_one_of line (chars "ex\t(sp), hl" ∷ chars "ex\t(sp),hl" ∷ [])
    then some (is_one_of what (chars "h" ∷ chars "l" ∷ chars "sp" ∷ []))
    else if is_one_of line (chars "ex\t(sp), ix" ∷ chars "ex\t(sp),ix" ∷ [])
    then some (has_str what (chars "ix") || str_eq what (chars "sp"))
    else if is_one_of line (chars "ex\t(sp), iy" ∷ chars "ex\t(sp),iy" ∷ [])
    then some (has_str what (chars "iy") || str_eq what (chars "sp"))
    else if is_one_of line (chars "ex\tde, hl" ∷ chars "ex\tde,hl" ∷ [])
    then some (is_one_of what (chars "h" ∷ chars "l" ∷ chars "d" ∷ chars "e" ∷ []))
    else none

-- The character in front of the comma, and whether the first `c` of a line stands behind it: NULL
-- compares less.
abbrev before_comma : Chars → ℕ
before_comma (c ∷ d ∷ s) = if d == b',' then c else before_comma (d ∷ s)
before_comma _ = 0

abbrev not_before_comma : Chars → ℕ → Bool
not_before_comma line c = elim (strchr line c) [
  | none ↦ true
  | some p ↦ ltb (length p) (left_at (strchr line b','))
]

-- The instructions that set A whatever it holds.
abbrev pub sets_zero : Chars → Bool
sets_zero line =
    isinst_any line (chars "xor" ∷ chars "sub" ∷ [])
    && (is_one_of (drop 4 line) (chars "a, a" ∷ chars "a,a" ∷ [])
        || (not (has_char line b',') && str_eq (drop 4 line) (chars "a")))

abbrev pub ands_zero : Chars → Bool
ands_zero line =
    is_one_of line (chars "and\ta, #0x00" ∷ chars "and\ta,#0x00" ∷ chars "and\t#0x00" ∷ [])

abbrev pub ors_ones : Chars → Bool
ors_ones line = is_one_of line (chars "or\ta, #0xff" ∷ chars "or\ta,#0xff" ∷ chars "or\t#0xff" ∷ [])

module _ (str_str : Chars → Chars → Option Chars) where
  abbrev reads_ld : Chars → Chars → Bool
  reads_ld line what =
      arg_cont str_str (text_at (strchr line b',')) what
      || (before_comma line == b')'
          && has_str (drop 3 line) what
          && not_before_comma line b'#'
          && not_before_comma line b'_')
      || (str_eq what (chars "sp") && has_char line b'(')

  -- A first operand, its registers, and how far the second operand is behind it.
  abbrev reads_second : Chars → List Chars → ℕ → Chars → Bool
  reads_second arg regs n what = is_one_of what regs || arg_cont str_str (drop n arg) what

  abbrev reads_alu : Chars → Chars → Bool
  reads_alu line what =
      let skipped =
        if isinst line (chars "multu") then 5 else if isinst line (chars "multuw") then 6 else 4 in
      let arg = skip_spaces (drop skipped line) in
      if starts arg (chars "a,")
      then reads_second arg (chars "a" ∷ []) 2 what
      else if starts arg (chars "hl,")
      then reads_second arg (chars "h" ∷ chars "l" ∷ []) 3 what
      else if starts arg (chars "sp,")
      then reads_second arg (chars "sp" ∷ []) 3 what
      else if char_at_start arg == b'i'
      then str_eq (take 2 arg) (take 2 what) || arg_cont str_str (drop 3 arg) what
      else arg_cont str_str arg what

  abbrev reads_compare : Chars → Chars → Bool
  reads_compare line what =
      let arg = skip_spaces (drop 3 line) in
      if starts arg (chars "a,")
      then reads_second arg (chars "a" ∷ []) 2 what
      else if starts arg (chars "hl,")
      then reads_second arg (chars "h" ∷ chars "l" ∷ []) 3 what
      else if starts arg (chars "ba,")
      then reads_second arg (chars "a" ∷ chars "b" ∷ []) 3 what
      else if starts arg (chars "iy,")
      then reads_second arg (chars "iy" ∷ []) 3 what
      else arg_cont str_str arg what

  -- From the negation to the bit instructions; none for another line.
  unfoldable pub reads_one_operand : Chars → Chars → Option Bool
  reads_one_operand line what =
      if isinst line (chars "neg")
      then some (str_eq what (chars "a"))
      else if isinst line (chars "pop")
      then some (str_eq what (chars "sp"))
      else if isinst line (chars "push")
      then some (has_str (drop 5 line) what || str_eq what (chars "sp"))
      else if isinst_any line (chars "dec" ∷ chars "inc" ∷ [])
      then some (arg_cont str_str (drop 4 line) what)
      else if isinst line (chars "cpl")
      then some (str_eq what (chars "a"))
      else if isinst_any line (chars "di" ∷ chars "ei" ∷ [])
      then some false
      else if isinst_any line
          (chars "rlca" ∷ chars "rla" ∷ chars "rrca" ∷ chars "rra" ∷ chars "daa" ∷ [])
      then some (str_eq what (chars "a"))
      else if isinst_any line (chars "rl" ∷ chars "rr" ∷ [])
      then some (arg_cont str_str (drop 3 line) what)
      else if isinst_any line
          (chars "rlc" ∷ chars "sla" ∷ chars "rrc" ∷ chars "sra" ∷ chars "srl" ∷ [])
      then some (arg_cont str_str (drop 4 line) what)
      else if isinst_any line (chars "rld" ∷ chars "rrd" ∷ [])
      then some (has_str (chars "ahl") what)
      else if isinst_any line (chars "bit" ∷ chars "set" ∷ chars "res" ∷ [])
      then some (arg_cont str_str (drop 4 line) what)
      else none

abbrev reads_in : Chars → Chars → Bool
reads_in line what =
    let by_c = has_str (text_at (strchr (drop 4 line) b',')) (chars "(c)") in
    (not by_c && str_eq what (chars "a")) || (by_c && is_one_of what (chars "b" ∷ chars "c" ∷ []))

abbrev reads_out : Chars → Chars → Bool
reads_out line what =
    has_str (text_at (strchr (drop 4 line) b',')) what
    || (has_str (drop 4 line) (chars "(c)") && is_one_of what (chars "b" ∷ chars "c" ∷ []))

-- From the flag instructions on; true for a line that is not known.
unfoldable pub reads_rest : Chars → Chars → Bool
reads_rest line what =
    let first = char_at_start what in
    if isinst_any line (chars "ccf" ∷ chars "scf" ∷ chars "nop" ∷ chars "halt" ∷ [])
    then false
    else if isinst_any line (chars "jp" ∷ chars "jr" ∷ [])
    then false
    else if isinst line (chars "djnz")
    then has_char what b'b'
    else if isinst_any line (chars "ldd" ∷ chars "lddr" ∷ chars "ldi" ∷ chars "ldir" ∷ [])
    then strchr_any (chars "bcdehl") first
    else if isinst_any line (chars "cpd" ∷ chars "cpdr" ∷ chars "cpi" ∷ chars "cpir" ∷ [])
    then strchr_any (chars "abchl") first
    else if isinst line (chars "out")
    then reads_out line what
    else if isinst line (chars "in")
    then reads_in line what
    else if isinst_any line (
        chars "ini"
        ∷ chars "ind"
        ∷ chars "inir"
        ∷ chars "indr"
        ∷ chars "outi"
        ∷ chars "outd"
        ∷ chars "otir"
        ∷ chars "otdr"
        ∷ [])
    then strchr_any (chars "bchl") first
    else if isinst_any line (chars "lidr" ∷ chars "lsddr" ∷ chars "lsidr" ∷ [])
    then strchr_any (chars "bcdehl") first
    else true

abbrev decided : Option Bool → Bool → Bool
decided (some b) rest = b
decided none rest = rest

-- From the loads on.
unfoldable pub reads_data : (Chars → Chars → Option Chars) → Chars → Chars → Bool
reads_data str_str line what =
    if isinst line (chars "ld")
    then reads_ld str_str line what
    else if sets_zero line || ands_zero line || ors_ones line
    then false
    else if isinst_any line
        (chars "adc" ∷ chars "add" ∷ chars "and" ∷ chars "sbc" ∷ chars "sub" ∷ chars "xor" ∷ [])
    then reads_alu str_str line what
    else if isinst_any line (chars "or" ∷ chars "cp" ∷ [])
    then reads_compare str_str line what
    else decided (reads_one_operand str_str line what) (reads_rest line what)

unfoldable pub might_read : Env → Chars → Chars → Bool
might_read env line asked =
    let what = whole_index asked in
    if reads_helper_call line what
    then true
    else if isinst line (chars "call") && not (has_char line b',')
    then reads_call env line what
    else if isinst_any line (chars "reti" ∷ chars "retn" ∷ [])
    then str_eq what (chars "sp")
    else if isinst line (chars "ret")
    then reads_ret env line what
    else decided (reads_exchange line what) (reads_data env.str_str line what)
