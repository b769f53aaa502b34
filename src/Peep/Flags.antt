-- ===== src/Peep/Flags.antt =====
-- src/s1c88/peep.c: which lines read a flag, and which surely write it.
pub mod Conditions
use sdcc.Common.{
  ℕ, ◌+◌, Bool, true, false, not, ◌&&◌, ◌||◌, List, [], ◌∷◌, Option, none, some, ◌==◌,
  if◌then◌else◌, length, drop, Chars, chars, char_at_start, str_eq, starts, starts_nocase, strchr,
  has_char, skip_spaces, to_lower,
}
use sdcc.Peep.Text.{isinst, isinst_any, arg_cont}
use sdcc.Peep.Names.{is_one_of}

unfoldable pub might_read_flag_condition : Chars → Chars → Bool
might_read_flag_condition text what =
    let cond = skip_spaces text in
    let first = to_lower (char_at_start cond) in
    if first == b'v' || starts_nocase cond (chars "nv")
    then str_eq what (chars "vf")
    else if first == b'm' || first == b'p'
    then str_eq what (chars "nf")
    else let behind = to_lower (char_at_start (if first == b'n' then drop 1 cond else cond)) in
      if behind == b'c'
      then str_eq what (chars "cf")
      else if behind == b'z'
      then str_eq what (chars "zf")
      else true

-- The three groups of instructions that read no flag.
abbrev reads_no_flag : List Chars
reads_no_flag =
    chars "ld"
    ∷ chars "or"
    ∷ chars "cp"
    ∷ chars "di"
    ∷ chars "ei"
    ∷ chars "im"
    ∷ chars "in"
    ∷ chars "nop"
    ∷ chars "add"
    ∷ chars "sub"
    ∷ chars "and"
    ∷ chars "xor"
    ∷ chars "dec"
    ∷ chars "inc"
    ∷ chars "cpl"
    ∷ chars "bit"
    ∷ chars "res"
    ∷ chars "set"
    ∷ chars "pop"
    ∷ chars "rlc"
    ∷ chars "rrc"
    ∷ chars "sla"
    ∷ chars "sra"
    ∷ chars "srl"
    ∷ chars "scf"
    ∷ chars "cpd"
    ∷ chars "cpi"
    ∷ chars "ind"
    ∷ chars "ini"
    ∷ chars "ldd"
    ∷ chars "ldi"
    ∷ chars "neg"
    ∷ chars "rld"
    ∷ chars "rrd"
    ∷ chars "mlt"
    ∷ chars "div"
    ∷ chars "out"
    ∷ chars "halt"
    ∷ chars "rlca"
    ∷ chars "rrca"
    ∷ chars "cpdr"
    ∷ chars "cpir"
    ∷ chars "indr"
    ∷ chars "inir"
    ∷ chars "lddr"
    ∷ chars "ldir"
    ∷ chars "outd"
    ∷ chars "outi"
    ∷ chars "djnz"
    ∷ []

abbrev reads_carry : List Chars
reads_carry =
    chars "rl"
    ∷ chars "rr"
    ∷ chars "rla"
    ∷ chars "rra"
    ∷ chars "sbc"
    ∷ chars "adc"
    ∷ chars "ccf"
    ∷ []

module _ (str_str : Chars → Chars → Option Chars) where
  unfoldable pub might_read_flag : Chars → Chars → Bool
  unfolding arg_cont
  might_read_flag line what =
      if isinst_any line reads_no_flag
      then false
      else if isinst_any line reads_carry
      then str_eq what (chars "cf")
      else if isinst line (chars "push")
      then arg_cont str_str (drop 4 line) (chars "af")
      else if isinst line (chars "ex")
      then arg_cont str_str (drop 2 line) (chars "af")
      else if isinst_any line (chars "jp" ∷ chars "jr" ∷ [])
      then has_char line b',' && might_read_flag_condition (drop 2 line) what
      else if isinst_any line (chars "reti" ∷ chars "retn" ∷ [])
      then false
      else if isinst line (chars "call")
      then has_char line b',' && might_read_flag_condition (drop 4 line) what
      else if isinst line (chars "ret")
      then char_at_start (drop 3 line) == 9 && might_read_flag_condition (drop 3 line) what
      else true

  abbrev not_one_of : Chars → List Chars → Bool
  not_one_of what names = not (is_one_of what names)

  abbrev but_carry : Chars → Bool
  but_carry what = not (str_eq what (chars "cf"))

  -- `ld a,i` and `ld a,r`
  abbrev ld_writes_flag : Chars → Chars → Bool
  ld_writes_flag line what =
      if not (str_eq what (chars "vf")) || not (arg_cont str_str (drop 3 line) (chars "a"))
      then false
      else elim (strchr (drop 4 line) b',') [
        | none ↦ false
        | some p ↦
            arg_cont str_str (drop 1 p) (chars "i") || arg_cont str_str (drop 1 p) (chars "r")
      ]

  abbrev writes_flags : List Chars
  writes_flags =
      chars "adc"
      ∷ chars "and"
      ∷ chars "sbc"
      ∷ chars "sub"
      ∷ chars "xor"
      ∷ chars "rlc"
      ∷ chars "rrc"
      ∷ chars "sla"
      ∷ chars "sra"
      ∷ chars "srl"
      ∷ chars "neg"
      ∷ chars "or"
      ∷ chars "cp"
      ∷ chars "rl"
      ∷ chars "rr"
      ∷ []

  abbrev writes_but_carry : List Chars
  writes_but_carry =
      chars "bit"
      ∷ chars "cpd"
      ∷ chars "cpi"
      ∷ chars "ind"
      ∷ chars "ini"
      ∷ chars "rrd"
      ∷ chars "cpdr"
      ∷ chars "cpir"
      ∷ chars "indr"
      ∷ chars "inir"
      ∷ chars "otdr"
      ∷ chars "otir"
      ∷ chars "outd"
      ∷ chars "outi"
      ∷ []

  abbrev step_writes_flag : Chars → Chars → Bool
  step_writes_flag line what =
      let arg = drop 4 line in
      if length arg == 1
        || str_eq arg (chars "(hl)")
        || is_one_of (drop 6 line) (chars "(ix)" ∷ chars "(iy)" ∷ [])
        || is_one_of arg (chars "ba" ∷ chars "hl" ∷ chars "ix" ∷ chars "iy" ∷ [])
      then but_carry what
      else false

  abbrev add_writes_flag : Chars → Chars → Bool
  add_writes_flag line what =
      let arg = skip_spaces (drop 4 line) in
      if starts arg (chars "a,")
        || (starts arg (chars "hl,") || starts arg (chars "hl ,"))
        || (starts arg (chars "ba,") || starts arg (chars "ba ,"))
      then true
      else not_one_of what (chars "zf" ∷ chars "nf" ∷ chars "vf" ∷ [])

  -- The instructions from the additions on.
  abbrev rest_writes_flag : Chars → Chars → Bool
  rest_writes_flag line what =
      if isinst line (chars "add")
      then add_writes_flag line what
      else if isinst_any line (chars "ldd" ∷ chars "lddr" ∷ chars "ldi" ∷ chars "ldir" ∷ [])
      then str_eq what (chars "vf")
      else if isinst line (chars "pop")
      then arg_cont str_str (drop 4 line) (chars "af")
      else if isinst_any line (chars "ret" ∷ chars "call" ∷ [])
      then true
      else if isinst_any line (chars "rld" ∷ chars "rrd" ∷ [])
      then str_eq what (chars "vf")
      else if isinst_any line (
          chars "djnz"
          ∷ chars "ex"
          ∷ chars "nop"
          ∷ chars "out"
          ∷ chars "push"
          ∷ chars "res"
          ∷ chars "set"
          ∷ [])
      then false
      else if isinst line (chars "in0")
          || (starts line (chars "in\t")
              && is_one_of (drop 5 line) (chars "(c)" ∷ chars "(bc)" ∷ []))
      then but_carry what
      else isinst_any line (chars "mlt" ∷ chars "div" ∷ [])

  unfoldable pub surely_writes_flag : Chars → Chars → Bool
  surely_writes_flag line what =
      if isinst line (chars "ld")
      then ld_writes_flag line what
      else if isinst_any line (chars "rlca" ∷ chars "rrca" ∷ chars "rra" ∷ chars "rla" ∷ [])
      then not_one_of what (chars "zf" ∷ chars "nf" ∷ chars "vf" ∷ [])
      else if isinst_any line writes_flags
      then true
      else if isinst_any line writes_but_carry
      then but_carry what
      else if isinst_any line (chars "ccf" ∷ chars "scf" ∷ [])
      then str_eq what (chars "cf")
      else if isinst line (chars "cpl")
      then false
      else if isinst_any line (chars "inc" ∷ chars "dec" ∷ [])
      then step_writes_flag line what
      else rest_writes_flag line what
