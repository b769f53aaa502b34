-- ===== src/Peep/Flags/Conditions.antt =====
-- The flags that src/s1c88/peep.c takes a conditional jump to read, against the conditions' meaning.
use sdcc.Common.{◌≡◌, refl, Bool, false, Chars, Option, chars}
use sdcc.As88.Branch.{
  cc_c, cc_nc, cc_z, cc_nz, cc_lt, cc_le, cc_gt, cc_ge, cc_v, cc_nv, cc_p, cc_m, cc_f0, cc_f1,
  cc_f2, cc_f3, cc_nf0, cc_nf1, cc_nf2, cc_nf3, Cond, always, basic, signed_cc,
}
use sdcc.As88.Branch.Flags.{Flags, holds}
use sdcc.Peep.Print.{print_branch}
use sdcc.Peep.Flags.{might_read_flag, might_read_flag_condition}
use sdcc.Peep.Effects.{Flag, zero_f, carry_f, negative_f, overflow_f, flag_name}

abbrev pub with_flag : Flag → Bool → Flags → Flags
with_flag zero_f b f = record f { zero_flag = b }
with_flag carry_f b f = record f { carry_flag = b }
with_flag negative_f b f = record f { neg_flag = b }
with_flag overflow_f b f = record f { over_flag = b }

-- A flag that s1c88MightReadFlag says a `jp` does not read has no influence on whether it jumps.
pub unread_flag_irrelevant :
    (str_str : Chars → Chars → Option Chars) (symbol : Chars) (k : Cond) (x : Flag) (b : Bool)
    (f : Flags)
    → might_read_flag str_str (print_branch (chars "jp") k symbol) (flag_name x) ≡ false
    → holds k (with_flag x b f) ≡ holds k f
unfolding might_read_flag might_read_flag_condition
unread_flag_irrelevant str_str symbol always x b f h = refl
unread_flag_irrelevant str_str symbol (basic cc_c) zero_f b f h = refl
unread_flag_irrelevant str_str symbol (basic cc_c) carry_f b f h = cc
unread_flag_irrelevant str_str symbol (basic cc_c) negative_f b f h = refl
unread_flag_irrelevant str_str symbol (basic cc_c) overflow_f b f h = refl
unread_flag_irrelevant str_str symbol (basic cc_nc) zero_f b f h = refl
unread_flag_irrelevant str_str symbol (basic cc_nc) carry_f b f h = cc
unread_flag_irrelevant str_str symbol (basic cc_nc) negative_f b f h = refl
unread_flag_irrelevant str_str symbol (basic cc_nc) overflow_f b f h = refl
unread_flag_irrelevant str_str symbol (basic cc_z) zero_f b f h = cc
unread_flag_irrelevant str_str symbol (basic cc_z) carry_f b f h = refl
unread_flag_irrelevant str_str symbol (basic cc_z) negative_f b f h = refl
unread_flag_irrelevant str_str symbol (basic cc_z) overflow_f b f h = refl
unread_flag_irrelevant str_str symbol (basic cc_nz) zero_f b f h = cc
unread_flag_irrelevant str_str symbol (basic cc_nz) carry_f b f h = refl
unread_flag_irrelevant str_str symbol (basic cc_nz) negative_f b f h = refl
unread_flag_irrelevant str_str symbol (basic cc_nz) overflow_f b f h = refl
unread_flag_irrelevant str_str symbol (signed_cc cc_v) zero_f b f h = refl
unread_flag_irrelevant str_str symbol (signed_cc cc_v) carry_f b f h = refl
unread_flag_irrelevant str_str symbol (signed_cc cc_v) negative_f b f h = refl
unread_flag_irrelevant str_str symbol (signed_cc cc_v) overflow_f b f h = cc
unread_flag_irrelevant str_str symbol (signed_cc cc_nv) zero_f b f h = refl
unread_flag_irrelevant str_str symbol (signed_cc cc_nv) carry_f b f h = refl
unread_flag_irrelevant str_str symbol (signed_cc cc_nv) negative_f b f h = refl
unread_flag_irrelevant str_str symbol (signed_cc cc_nv) overflow_f b f h = cc
unread_flag_irrelevant str_str symbol (signed_cc cc_p) zero_f b f h = refl
unread_flag_irrelevant str_str symbol (signed_cc cc_p) carry_f b f h = refl
unread_flag_irrelevant str_str symbol (signed_cc cc_p) negative_f b f h = cc
unread_flag_irrelevant str_str symbol (signed_cc cc_p) overflow_f b f h = refl
unread_flag_irrelevant str_str symbol (signed_cc cc_m) zero_f b f h = refl
unread_flag_irrelevant str_str symbol (signed_cc cc_m) carry_f b f h = refl
unread_flag_irrelevant str_str symbol (signed_cc cc_m) negative_f b f h = cc
unread_flag_irrelevant str_str symbol (signed_cc cc_m) overflow_f b f h = refl
unread_flag_irrelevant str_str symbol (signed_cc cc_lt) x b f h = cc
unread_flag_irrelevant str_str symbol (signed_cc cc_le) x b f h = cc
unread_flag_irrelevant str_str symbol (signed_cc cc_gt) x b f h = cc
unread_flag_irrelevant str_str symbol (signed_cc cc_ge) x b f h = cc
unread_flag_irrelevant str_str symbol (signed_cc cc_f0) x b f h = cc
unread_flag_irrelevant str_str symbol (signed_cc cc_f1) x b f h = cc
unread_flag_irrelevant str_str symbol (signed_cc cc_f2) x b f h = cc
unread_flag_irrelevant str_str symbol (signed_cc cc_f3) x b f h = cc
unread_flag_irrelevant str_str symbol (signed_cc cc_nf0) x b f h = cc
unread_flag_irrelevant str_str symbol (signed_cc cc_nf1) x b f h = cc
unread_flag_irrelevant str_str symbol (signed_cc cc_nf2) x b f h = cc
unread_flag_irrelevant str_str symbol (signed_cc cc_nf3) x b f h = cc
