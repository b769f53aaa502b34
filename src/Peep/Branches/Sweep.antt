-- ===== src/Peep/Branches/Sweep.antt =====
-- The branches with a condition, by computation.
use sdcc.Common.{◌≡◌, refl, Bool, true, false, Option, some, Chars}
use sdcc.As88.Branch.{
  Cc, cc_c, cc_nc, cc_z, cc_nz, SignedCc, cc_lt, cc_le, cc_gt, cc_ge, cc_v, cc_nv, cc_p, cc_m,
  cc_f0, cc_f1, cc_f2, cc_f3, cc_nf0, cc_nf1, cc_nf2, cc_nf3, basic, signed_cc, encode_short,
  encode_long, encode_djr, encode_jp_label, banked,
}
use sdcc.As88.Emit.{size}
use sdcc.Peep.Text.{arg_cont}
use sdcc.Peep.Size.{
  instruction_size, size_ld, size_ld_plain, size_ex, size_data, size_bits, size_branch, size_rest,
}
use sdcc.Peep.Branches.{Branch, short, long, djr_nz, jp_label, other_area, branch_line, branch_code}

module _ (str_str : Chars → Chars → Option Chars) (symbol : Chars) where
  abbrev pub IsExact : Branch → Type 0
  IsExact b = instruction_size str_str (branch_line b symbol) ≡ size (branch_code b)

  pub short_call_basic : (k : Cc) → IsExact (short true (basic k))
  unfolding encode_short encode_long encode_djr encode_jp_label banked instruction_size size_ld
      size_ld_plain size_ex size_data size_bits size_branch size_rest arg_cont
  short_call_basic cc_c = refl
  short_call_basic cc_nc = refl
  short_call_basic cc_z = refl
  short_call_basic cc_nz = refl

  pub short_call_signed : (k : SignedCc) → IsExact (short true (signed_cc k))
  unfolding encode_short encode_long encode_djr encode_jp_label banked instruction_size size_ld
      size_ld_plain size_ex size_data size_bits size_branch size_rest arg_cont
  short_call_signed cc_lt = refl
  short_call_signed cc_le = refl
  short_call_signed cc_gt = refl
  short_call_signed cc_ge = refl
  short_call_signed cc_v = refl
  short_call_signed cc_nv = refl
  short_call_signed cc_p = refl
  short_call_signed cc_m = refl
  short_call_signed cc_f0 = refl
  short_call_signed cc_f1 = refl
  short_call_signed cc_f2 = refl
  short_call_signed cc_f3 = refl
  short_call_signed cc_nf0 = refl
  short_call_signed cc_nf1 = refl
  short_call_signed cc_nf2 = refl
  short_call_signed cc_nf3 = refl

  pub short_jump_basic : (k : Cc) → IsExact (short false (basic k))
  unfolding encode_short encode_long encode_djr encode_jp_label banked instruction_size size_ld
      size_ld_plain size_ex size_data size_bits size_branch size_rest arg_cont
  short_jump_basic cc_c = refl
  short_jump_basic cc_nc = refl
  short_jump_basic cc_z = refl
  short_jump_basic cc_nz = refl

  pub short_jump_signed : (k : SignedCc) → IsExact (short false (signed_cc k))
  unfolding encode_short encode_long encode_djr encode_jp_label banked instruction_size size_ld
      size_ld_plain size_ex size_data size_bits size_branch size_rest arg_cont
  short_jump_signed cc_lt = refl
  short_jump_signed cc_le = refl
  short_jump_signed cc_gt = refl
  short_jump_signed cc_ge = refl
  short_jump_signed cc_v = refl
  short_jump_signed cc_nv = refl
  short_jump_signed cc_p = refl
  short_jump_signed cc_m = refl
  short_jump_signed cc_f0 = refl
  short_jump_signed cc_f1 = refl
  short_jump_signed cc_f2 = refl
  short_jump_signed cc_f3 = refl
  short_jump_signed cc_nf0 = refl
  short_jump_signed cc_nf1 = refl
  short_jump_signed cc_nf2 = refl
  short_jump_signed cc_nf3 = refl

  pub jp_basic : (k : Cc) → IsExact (jp_label (basic k))
  unfolding encode_short encode_long encode_djr encode_jp_label banked instruction_size size_ld
      size_ld_plain size_ex size_data size_bits size_branch size_rest arg_cont
  jp_basic cc_c = refl
  jp_basic cc_nc = refl
  jp_basic cc_z = refl
  jp_basic cc_nz = refl

  pub jp_signed : (k : SignedCc) → IsExact (jp_label (signed_cc k))
  unfolding encode_short encode_long encode_djr encode_jp_label banked instruction_size size_ld
      size_ld_plain size_ex size_data size_bits size_branch size_rest arg_cont
  jp_signed cc_lt = refl
  jp_signed cc_le = refl
  jp_signed cc_gt = refl
  jp_signed cc_ge = refl
  jp_signed cc_v = refl
  jp_signed cc_nv = refl
  jp_signed cc_p = refl
  jp_signed cc_m = refl
  jp_signed cc_f0 = refl
  jp_signed cc_f1 = refl
  jp_signed cc_f2 = refl
  jp_signed cc_f3 = refl
  jp_signed cc_nf0 = refl
  jp_signed cc_nf1 = refl
  jp_signed cc_nf2 = refl
  jp_signed cc_nf3 = refl

  pub area_call_basic : (k : Cc) → IsExact (other_area true (basic k))
  unfolding encode_short encode_long encode_djr encode_jp_label banked instruction_size size_ld
      size_ld_plain size_ex size_data size_bits size_branch size_rest arg_cont
  area_call_basic cc_c = refl
  area_call_basic cc_nc = refl
  area_call_basic cc_z = refl
  area_call_basic cc_nz = refl

  pub area_call_signed : (k : SignedCc) → IsExact (other_area true (signed_cc k))
  unfolding encode_short encode_long encode_djr encode_jp_label banked instruction_size size_ld
      size_ld_plain size_ex size_data size_bits size_branch size_rest arg_cont
  area_call_signed cc_lt = refl
  area_call_signed cc_le = refl
  area_call_signed cc_gt = refl
  area_call_signed cc_ge = refl
  area_call_signed cc_v = refl
  area_call_signed cc_nv = refl
  area_call_signed cc_p = refl
  area_call_signed cc_m = refl
  area_call_signed cc_f0 = refl
  area_call_signed cc_f1 = refl
  area_call_signed cc_f2 = refl
  area_call_signed cc_f3 = refl
  area_call_signed cc_nf0 = refl
  area_call_signed cc_nf1 = refl
  area_call_signed cc_nf2 = refl
  area_call_signed cc_nf3 = refl

  pub area_jump_basic : (k : Cc) → IsExact (other_area false (basic k))
  unfolding encode_short encode_long encode_djr encode_jp_label banked instruction_size size_ld
      size_ld_plain size_ex size_data size_bits size_branch size_rest arg_cont
  area_jump_basic cc_c = refl
  area_jump_basic cc_nc = refl
  area_jump_basic cc_z = refl
  area_jump_basic cc_nz = refl

  pub area_jump_signed : (k : SignedCc) → IsExact (other_area false (signed_cc k))
  unfolding encode_short encode_long encode_djr encode_jp_label banked instruction_size size_ld
      size_ld_plain size_ex size_data size_bits size_branch size_rest arg_cont
  area_jump_signed cc_lt = refl
  area_jump_signed cc_le = refl
  area_jump_signed cc_gt = refl
  area_jump_signed cc_ge = refl
  area_jump_signed cc_v = refl
  area_jump_signed cc_nv = refl
  area_jump_signed cc_p = refl
  area_jump_signed cc_m = refl
  area_jump_signed cc_f0 = refl
  area_jump_signed cc_f1 = refl
  area_jump_signed cc_f2 = refl
  area_jump_signed cc_f3 = refl
  area_jump_signed cc_nf0 = refl
  area_jump_signed cc_nf1 = refl
  area_jump_signed cc_nf2 = refl
  area_jump_signed cc_nf3 = refl

  pub long_basic : (call : Bool) (k : Cc) → IsExact (long call (some k))
  unfolding encode_short encode_long encode_djr encode_jp_label banked instruction_size size_ld
      size_ld_plain size_ex size_data size_bits size_branch size_rest arg_cont
  long_basic true cc_c = refl
  long_basic true cc_nc = refl
  long_basic true cc_z = refl
  long_basic true cc_nz = refl
  long_basic false cc_c = refl
  long_basic false cc_nc = refl
  long_basic false cc_z = refl
  long_basic false cc_nz = refl

  pub djr-IsExact : IsExact djr_nz
  unfolding encode_short encode_long encode_djr encode_jp_label banked instruction_size size_ld
      size_ld_plain size_ex size_data size_bits size_branch size_rest arg_cont
  djr-IsExact = refl
