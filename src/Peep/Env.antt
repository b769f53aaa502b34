-- ===== src/Peep/Env.antt =====
-- src/s1c88/peep.c and gen.c: what the scans know besides the lines: SDCC's services, the function
-- that is compiled, and the registers that its calls use.
use sdcc.Common.{
  Bool, false, ◌&&◌, ◌||◌, List, [], ◌∷◌, Option, none, some, Chars, chars, str_eq, has_char,
  has_str, if◌then◌else◌,
}

-- A flag for each byte register, in the order of the enumeration in ralloc.h.
pub record ByteRegs : Type 0 where
  pub a_idx : Bool
  pub b_idx : Bool
  pub l_idx : Bool
  pub h_idx : Bool
  pub iyl_idx : Bool
  pub iyh_idx : Bool

-- The type of a symbol, as the scans see it: whether it is a function's, for each argument the names
-- of the registers in which `aopArg` places it, if any, and `funcAttrs.preserved_regs`.
pub record SymType : Type 0 where
  pub is_func : Bool
  pub arg_regs : List (Option (List Chars))
  pub preserved_regs : ByteRegs

-- `str_str` (`StrStr`), `find_sym` (`findSym` in the symbol table) and `has_label_ref` (whether
-- `getLabelRef` finds the label in the table of labels) are SDCC's. `return_regs` are
-- the registers in which `aopRet` places the result of the current function.
pub record Env : Type 0 where
  pub str_str : Chars → Chars → Option Chars
  pub find_sym : Chars → Option SymType
  pub has_label_ref : Chars → Bool
  pub return_regs : Option (List Chars)
  pub used_as_parms : ByteRegs
  pub preserved_in_calls : ByteRegs

-- A lineNode without its link and its `visited` flag, which the state of a scan holds.
pub record Line : Type 0 where
  pub text : Option Chars
  pub is_debug : Bool
  pub is_comment : Bool
  pub is_label : Bool
  pub is_inline : Bool

abbrev names_reg : List Chars → Chars → Bool
names_reg [] what = false
names_reg (r ∷ rs) what = str_eq r what || names_reg rs what

abbrev placed_in : Option (List Chars) → Chars → Bool
placed_in none what = false
placed_in (some rs) what = names_reg rs what

-- `s1c88IsReturned`, `s1c88IsRegArg` for an argument, and `s1c88IsParmInCall`
abbrev either_half : (Chars → Bool) → Chars → Bool
either_half p what = if str_eq what (chars "iy") then p (chars "iyl") || p (chars "iyh") else p what

unfoldable pub is_returned : Env → Chars → Bool
is_returned env what = either_half (placed_in env.return_regs) what

unfoldable pub is_reg_arg : Option (List Chars) → Chars → Bool
is_reg_arg arg what = either_half (placed_in arg) what

unfoldable pub in_args : List (Option (List Chars)) → Chars → Bool
unfolding is_reg_arg
in_args [] what = false
in_args (arg ∷ args) what = is_reg_arg arg what || in_args args what

unfoldable pub is_parm_in_call : SymType → Chars → Bool
is_parm_in_call f what = in_args f.arg_regs what

unfoldable pub might_be_parm : Env → Chars → Bool
might_be_parm env what =
    let used = env.used_as_parms in
    (has_char what b'l' && used.l_idx)
    || (has_char what b'h' && used.h_idx)
    || (has_char what b'b' && used.b_idx)
    || (has_char what b'a' && used.a_idx)
    || (has_str what (chars "iy") && (used.iyl_idx || used.iyh_idx))
