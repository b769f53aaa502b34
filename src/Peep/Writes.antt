-- ===== src/Peep/Writes.antt =====
-- src/s1c88/peep.c: which lines surely write a register, and which end a function.
use sdcc.Common.{
  ◌+◌, Bool, true, false, not, ◌&&◌, ◌||◌, [], ◌∷◌, Option, none, some, ◌==◌, if◌then◌else◌, length,
  drop, Chars, chars, char_at_start, str_eq, starts, has_char, has_str,
}
use sdcc.Peep.Text.{isinst, isinst_any, is_some}
use sdcc.Peep.Env.{Env, SymType, ByteRegs}
use sdcc.Peep.Reads.{whole_index, sets_zero, ands_zero, ors_ones}

-- What a callee does not preserve.
abbrev lost : ByteRegs → Chars → Bool
lost regs what =
    if str_eq what (chars "a")
    then not regs.a_idx
    else if str_eq what (chars "b")
    then not regs.b_idx
    else if str_eq what (chars "l")
    then not regs.l_idx
    else if str_eq what (chars "h")
    then not regs.h_idx
    else if str_eq what (chars "iyl")
    then not regs.iyl_idx
    else if str_eq what (chars "iyh")
    then not regs.iyh_idx
    else if str_eq what (chars "iy")
    then not regs.iyl_idx && not regs.iyh_idx
    else false

abbrev pub is_jump : Chars → Bool
is_jump line = isinst_any line (chars "jp" ∷ chars "jr" ∷ [])

abbrev callee : Env → Chars → Option SymType
callee env line =
    if isinst line (chars "call") && not (has_char line b',')
    then env.find_sym (drop 6 line)
    else if is_jump line && not (has_char line b',')
    then env.find_sym (drop 4 line)
    else none

abbrev preserved_by : Env → Chars → Option SymType → Option ByteRegs
preserved_by env line (some f) = some f.preserved_regs
preserved_by env line none =
    if isinst line (chars "call") then some env.preserved_in_calls else none

unfoldable pub call_surely_writes : Env → Chars → Chars → Bool
call_surely_writes env line what =
    let f = callee env line in
    if is_some f && (length what == 2 && char_at_start (drop 1 what) == b'f')
    then true
    else if str_eq what (chars "ix")
    then false
    else elim (preserved_by env line f) [ none ↦ false | some regs ↦ lost regs what ]

-- `ld` to a pair that holds the register.
abbrev loads_pair : Chars → Chars → Chars → Bool
loads_pair line what pair =
    isinst line (chars "ld") && starts (drop 3 line) pair && has_char pair (char_at_start what)

unfoldable pub surely_writes : Env → Chars → Chars → Bool
unfolding call_surely_writes
surely_writes env line asked =
    let what = whole_index asked in
    if str_eq what (chars "a") && (sets_zero line || ands_zero line || ors_ones line)
    then true
    else if loads_pair line what (chars "hl")
        || loads_pair line what (chars "de")
        || loads_pair line what (chars "bc")
    then true
    else if isinst_any line (chars "ld" ∷ chars "in" ∷ [])
        && starts (drop 3 line) what
        && char_at_start (drop (3 + length what) line) == b','
    then true
    else if isinst line (chars "pop") && has_str (drop 4 line) what
    then true
    else if isinst line (chars "call") && not (has_char line b',')
    then call_surely_writes env line what
    else str_eq line (chars "ret")

abbrev pub surely_returns : Chars → Bool
surely_returns line = str_eq line (chars "ret")

abbrev pub uncond_jump : Chars → Bool
uncond_jump line = is_jump line && not (has_char line b',')

abbrev pub cond_jump : Chars → Bool
cond_jump line = (is_jump line && has_char line b',') || isinst line (chars "djnz")
