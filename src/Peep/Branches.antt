-- ===== src/Peep/Branches.antt =====
-- The sizes that src/s1c88/peep.c counts for branches to a symbol, against the code of sdas/as88.
-- scripts/insn-size-check.sh pins a few of them.
pub mod Sweep
pub mod Exact
use sdcc.Common.{
  ℕ, ◌≡◌, refl, ◌∙◌, Bool, true, false, ◌&&◌, ◌||◌, List, [], ◌∷◌, Option, none, some, ◌==◌, ==_iff,
  if◌then◌else◌, Chars, chars, strchr, has_char, arith, Bool-cases, inl, inr,
}
use sdcc.As88.Branch.{
  Cc, cc_c, cc_nc, cc_z, cc_nz, SignedCc, cc_lt, cc_le, cc_gt, cc_ge, cc_v, cc_nv, cc_p, cc_m,
  cc_f0, cc_f1, cc_f2, cc_f3, cc_nf0, cc_nf1, cc_nf2, cc_nf3, Cond, always, basic, signed_cc,
  encode_short, encode_long, encode_djr, encode_jp_label, banked,
}
use sdcc.As88.Emit.{Item, size}
use sdcc.Peep.Print.{print_branch}
use sdcc.Peep.Text.{arg_cont}
use sdcc.Peep.Size.{
  instruction_size, size_ld, size_ld_plain, size_ex, size_data, size_bits, size_branch, size_rest,
}

-- The branches: `jrs` and `cars`, `jrl` and `carl`, `djr`, `jp`, and `bjump` and `bcall` to another
-- area.
pub data Branch : Type 0 where
  short : (call : Bool) → Cond → Branch
  long : (call : Bool) → Option Cc → Branch
  djr_nz : Branch
  jp_label : Cond → Branch
  other_area : (call : Bool) → Cond → Branch

abbrev pub branch_name : Branch → Chars
branch_name (short call k) = if call then chars "cars" else chars "jrs"
branch_name (long call k) = if call then chars "carl" else chars "jrl"
branch_name djr_nz = chars "djr"
branch_name (jp_label k) = chars "jp"
branch_name (other_area call k) = if call then chars "bcall" else chars "bjump"

abbrev pub long_cond : Option Cc → Cond
long_cond none = always
long_cond (some k) = basic k

abbrev pub branch_cond : Branch → Cond
branch_cond (short call k) = k
branch_cond (long call k) = long_cond k
branch_cond djr_nz = basic cc_nz
branch_cond (jp_label k) = k
branch_cond (other_area call k) = k

abbrev pub branch_code : Branch → List Item
branch_code (short call k) = encode_short call k
branch_code (long call k) = encode_long call k
branch_code djr_nz = encode_djr (some cc_nz)
branch_code (jp_label k) = encode_jp_label k
branch_code (other_area call k) = banked call k

abbrev pub branch_line : Branch → Chars → Chars
branch_line b symbol = print_branch (branch_name b) (branch_cond b) symbol
