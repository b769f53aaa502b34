-- ===== src/Peep/Size.antt =====
-- src/s1c88/peep.c, `s1c88instructionSize`: how many bytes the compiler counts for a line.
use sdcc.Common.{
  ℕ, suc, ◌+◌, ◌*◌, Bool, false, not, ◌&&◌, ◌||◌, List, [], ◌∷◌, Option, none, some, ◌==◌,
  if◌then◌else◌, Chars, chars, char_at_start, starts, starts_nocase, has_char, is_empty,
}
use sdcc.Peep.Text.{isinst, isinst_any, arg_cont, op1start, op2start, text_at, is_some}

abbrev starts_any : Chars → List Chars → Bool
starts_any p [] = false
starts_any p (s ∷ ss) = starts_nocase p s || starts_any p ss

abbrev is_immediate : Chars → Bool
is_immediate p = char_at_start p == b'#'

abbrev is_paren : Chars → Bool
is_paren p = char_at_start p == b'('

abbrev is_index : Chars → Bool
is_index p = starts_any p (chars "ix" ∷ chars "iy" ∷ [])

abbrev special_regs : List Chars
special_regs = chars "ep" ∷ chars "xp" ∷ chars "yp" ∷ chars "nb" ∷ chars "br" ∷ []

-- An access by an address that is neither `(bc)`, `(de)` nor `(hl…`.
abbrev is_direct : Chars → Bool
is_direct p =
    is_paren p
    && not (starts_nocase p (chars "(bc)"))
    && not (starts_nocase p (chars "(de)"))
    && not (starts_nocase p (chars "(hl"))

abbrev wide_direct : Chars → Chars → Bool
wide_direct op1 op2 =
    (is_direct op1 && not (starts_nocase op2 (chars "hl")) && not (starts_nocase op2 (chars "a")))
    || (is_paren op2
        && not (starts_nocase op2 (chars "(bc)"))
        && not (starts_nocase op1 (chars "(de)"))
        && not (starts_nocase op2 (chars "(hl"))
        && not (starts_nocase op1 (chars "hl"))
        && not (starts_nocase op1 (chars "a")))

-- A condition in front of the target that has no long form.
abbrev is_basic_cond : Chars → Bool
is_basic_cond p = starts_any p (chars "c," ∷ chars "nc," ∷ chars "z," ∷ chars "nz," ∷ [])

abbrev arithmetic : List Chars
arithmetic =
    chars "add"
    ∷ chars "adc"
    ∷ chars "sub"
    ∷ chars "sbc"
    ∷ chars "cp"
    ∷ chars "and"
    ∷ chars "or"
    ∷ chars "xor"
    ∷ []

abbrev wide_arithmetic : List Chars
wide_arithmetic = chars "add" ∷ chars "adc" ∷ chars "sub" ∷ chars "sbc" ∷ chars "cp" ∷ []

abbrev pairs_and_sp : List Chars
pairs_and_sp = chars "ba" ∷ chars "hl" ∷ chars "ix" ∷ chars "iy" ∷ chars "sp" ∷ []

abbrev commas : Chars → ℕ
commas [] = 0
commas (c ∷ s) = (if c == b',' then 1 else 0) + commas s

abbrev skip_blanks : Chars → Chars
skip_blanks [] = []
skip_blanks (c ∷ s) = if c == b' ' || c == 9 then skip_blanks s else c ∷ s

abbrev skip_mnemonic : Chars → Chars
skip_mnemonic [] = []
skip_mnemonic (c ∷ s) = if c == b' ' || c == 9 then c ∷ s else skip_mnemonic s

-- `bcall` and `bjump`, which look for their operand themselves, with regard to case.
abbrev size_banked : Chars → ℕ
size_banked line =
    let p = skip_blanks (skip_mnemonic line) in
    if has_char p b','
      && not (starts p (chars "c,"))
      && not (starts p (chars "nc,"))
      && not (starts p (chars "z,"))
      && not (starts p (chars "nz,"))
    then 9
    else 6

module _ (str_str : Chars → Chars → Option Chars) where
  abbrev indexed : Chars → Bool
  indexed p = arg_cont str_str p (chars "(ix)") || arg_cont str_str p (chars "(iy)")

  -- The loads, behind the special registers and the stack.
  unfoldable pub size_ld_plain : Chars → Chars → ℕ
  size_ld_plain op1 op2 =
      if is_index op1
      then 4
      else if indexed op1 && is_immediate op2
      then 4
      else if wide_direct op1 op2
      then 4
      else if indexed op2 || indexed op1
      then 3
      else if is_direct op1 || is_direct op2
      then 3
      else if is_immediate op2
          && starts_any op1 (chars "bc" ∷ chars "de" ∷ chars "hl" ∷ chars "sp" ∷ [])
      then 3
      else if is_immediate op2
      then 2
      else if starts_any op1 (chars "i" ∷ chars "r" ∷ [])
          || starts_any op2 (chars "i" ∷ chars "r" ∷ [])
      then 2
      else if is_index op2
      then 2
      else 1

  unfoldable pub size_ld : Chars → Option Chars → ℕ
  size_ld op1 op2 =
      if starts_any op1 special_regs
      then if is_some op2 && is_immediate (text_at op2) then 3 else 2
      else if is_some op2 && starts_any (text_at op2) special_regs
      then 2
      else if arg_cont str_str op1 (chars "(sp)")
          || (is_some op2 && arg_cont str_str (text_at op2) (chars "(sp)"))
      then 3
      else size_ld_plain op1 (text_at op2)

  -- `ex` with one operand is reported, and counted as 4.
  unfoldable pub size_ex : Chars → Option Chars → ℕ
  size_ex op1 none = 4
  size_ex op1 (some op2) = if arg_cont str_str op1 (chars "(sp)") && is_index op2 then 2 else 1

  abbrev size_alu8 : Chars → ℕ
  size_alu8 p = if indexed p then 3 else if is_immediate p then 2 else 1

  -- From the exchange to the one-byte rotations; none where the line is none of these.
  unfoldable pub size_data : Chars → Chars → Option Chars → Option ℕ
  size_data line op1 op2 =
      if isinst line (chars "exx")
      then some 1
      else if isinst line (chars "ex")
      then some (size_ex op1 op2)
      else if isinst_any line (chars "push" ∷ chars "pop" ∷ [])
      then some (if is_index op1 then 2 else 1)
      else if not (is_empty op1)
          && is_some op2
          && isinst_any line wide_arithmetic
          && starts_any op1 pairs_and_sp
      then some (
          if not (is_immediate (text_at op2))
          then 2
          else if isinst_any line (chars "adc" ∷ chars "sbc" ∷ []) || starts_nocase op1 (chars "sp")
          then 4
          else 3)
      else if is_some op2 && char_at_start op1 == b'a' && isinst_any line arithmetic
      then some (size_alu8 (text_at op2))
      else if not (is_some op2) && isinst_any line arithmetic
      then some (size_alu8 op1)
      else if isinst_any line (chars "rlca" ∷ chars "rla" ∷ chars "rrca" ∷ chars "rra" ∷ [])
      then some 1
      else none

  -- From the increments to the bit instructions.
  unfoldable pub size_bits : Chars → Chars → Option Chars → Option ℕ
  size_bits line op1 op2 =
      if isinst_any line (chars "inc" ∷ chars "dec" ∷ [])
      then some (if is_index op1 then 2 else if indexed op1 then 3 else 1)
      else if isinst_any line (
          chars "rlc"
          ∷ chars "rl"
          ∷ chars "rrc"
          ∷ chars "rr"
          ∷ chars "sla"
          ∷ chars "sra"
          ∷ chars "srl"
          ∷ [])
      then some (if indexed op1 then 4 else 2)
      else if isinst_any line (chars "rld" ∷ chars "rrd" ∷ [])
      then some 2
      else if isinst_any line (chars "bit" ∷ chars "set" ∷ chars "res" ∷ [])
      then some (if indexed (text_at op2) then 4 else 2)
      else none

-- The branches, up to the banked ones.
unfoldable pub size_branch : Chars → Chars → Option Chars → Option ℕ
size_branch line op1 op2 =
    if isinst_any line (chars "jr" ∷ chars "djnz" ∷ [])
    then some 2
    else if isinst_any line (chars "jrs" ∷ chars "cars" ∷ [])
    then some (if is_some op2 && not (is_basic_cond op1) then 3 else 2)
    else if isinst_any line (chars "jrl" ∷ chars "carl" ∷ [])
    then some 3
    else if isinst line (chars "djr")
    then some 2
    else if isinst line (chars "jp")
    then some (
        if starts_any op1 (chars "(hl)" ∷ chars "hl" ∷ [])
        then 1
        else if starts_any op1 (chars "(ix)" ∷ chars "(iy)" ∷ [])
        then 2
        else if is_some op2 && not (is_basic_cond op1)
        then 6
        else 3)
    else if isinst_any line (chars "reti" ∷ chars "retn" ∷ [])
    then some 2
    else if isinst_any line (chars "ret" ∷ chars "reti" ∷ chars "rst" ∷ [])
    then some 1
    else if isinst line (chars "call")
    then some 3
    else if isinst_any line (chars "bcall" ∷ chars "bjump" ∷ [])
    then some (size_banked line)
    else none

-- What is left; 999 for a line that is no known instruction, which is reported.
unfoldable pub size_rest : Chars → ℕ
size_rest line =
    if isinst_any line
      (chars "ldi" ∷ chars "ldd" ∷ chars "cpi" ∷ chars "cpd" ∷ chars "neg" ∷ chars "sep" ∷ [])
    then 2
    else if isinst_any line (
        chars "daa"
        ∷ chars "cpl"
        ∷ chars "ccf"
        ∷ chars "scf"
        ∷ chars "nop"
        ∷ chars "halt"
        ∷ chars "ei"
        ∷ chars "di"
        ∷ [])
    then 1
    else if isinst_any line (
        chars "im"
        ∷ chars "in"
        ∷ chars "out"
        ∷ chars "ot"
        ∷ chars "ini"
        ∷ chars "inir"
        ∷ chars "ind"
        ∷ chars "indr"
        ∷ chars "outi"
        ∷ chars "otir"
        ∷ chars "outd"
        ∷ chars "otdr"
        ∷ chars "mlt"
        ∷ chars "div"
        ∷ chars "lddr"
        ∷ chars "ldir"
        ∷ chars "cpir"
        ∷ chars "cpdr"
        ∷ [])
    then 2
    else if isinst_any line (chars ".db" ∷ chars ".byte" ∷ [])
    then suc (commas line)
    else if isinst_any line (chars ".dw" ∷ chars ".word" ∷ [])
    then suc (commas line) * 2
    else 999

abbrev or_else : Option ℕ → ℕ → ℕ
or_else (some n) m = n
or_else none m = m

-- The tests stand in the order of the source.
unfoldable pub instruction_size : (Chars → Chars → Option Chars) → Chars → ℕ
instruction_size str_str line =
    let op1 = text_at (op1start line) in
    let op2 = op2start line in
    if isinst line (chars "ld")
    then size_ld str_str op1 op2
    else or_else (size_data str_str line op1 op2) (
        or_else (size_bits str_str line op1 op2)
          (or_else (size_branch line op1 op2) (size_rest line)))
