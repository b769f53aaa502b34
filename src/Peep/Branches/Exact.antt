-- ===== src/Peep/Branches/Exact.antt =====
-- The size that src/s1c88/peep.c counts for a branch is the size of its code.
use sdcc.Common.{
  ℕ, ◌≡◌, refl, Bool, true, false, [], ◌∷◌, Option, none, some, ◌==◌, Chars, strchr, has_char,
  arith, Bool-cases, inl, inr,
}
use sdcc.As88.Branch.{
  always, basic, signed_cc, encode_short, encode_long, encode_djr, encode_jp_label, banked,
}
use sdcc.As88.Emit.{size}
use sdcc.Peep.Text.{arg_cont}
use sdcc.Peep.Size.{
  instruction_size, size_ld, size_ld_plain, size_ex, size_data, size_bits, size_branch, size_rest,
}
use sdcc.Peep.Branches.Sweep.{
  IsExact, short_call_basic, short_call_signed, short_jump_basic, short_jump_signed, jp_basic,
  jp_signed, area_call_basic, area_call_signed, area_jump_basic, area_jump_signed, long_basic,
  djr-IsExact,
}
use sdcc.Peep.Branches.{Branch, short, long, djr_nz, jp_label, other_area, branch_line, branch_code}

strchr-none : (p : Chars) (c : ℕ) → has_char p c ≡ false → strchr p c ≡ none
strchr-none [] c h = refl
strchr-none (x ∷ p) c h = elim (Bool-cases (x == c)) [
  | inl same ↦ absurd (ground arith)
  | inr other ↦ rw other (strchr-none p c (ground arith))
]

module _ (str_str : Chars → Chars → Option Chars) (symbol : Chars)
    (plain : has_char symbol b',' ≡ false) where
  short_always : (call : Bool) → IsExact str_str symbol (short call always)
  unfolding encode_short encode_long encode_djr encode_jp_label banked instruction_size size_ld
      size_ld_plain size_ex size_data size_bits size_branch size_rest arg_cont
  short_always true = rw (strchr-none symbol b',' plain)
  short_always false = rw (strchr-none symbol b',' plain)

  long_always : (call : Bool) → IsExact str_str symbol (long call none)
  unfolding encode_short encode_long encode_djr encode_jp_label banked instruction_size size_ld
      size_ld_plain size_ex size_data size_bits size_branch size_rest arg_cont
  long_always true = rw (strchr-none symbol b',' plain)
  long_always false = rw (strchr-none symbol b',' plain)

  jp_always : IsExact str_str symbol (jp_label always)
  unfolding encode_short encode_long encode_djr encode_jp_label banked instruction_size size_ld
      size_ld_plain size_ex size_data size_bits size_branch size_rest arg_cont
  jp_always = rw (strchr-none symbol b',' plain)

  area_always : (call : Bool) → IsExact str_str symbol (other_area call always)
  unfolding encode_short encode_long encode_djr encode_jp_label banked instruction_size size_ld
      size_ld_plain size_ex size_data size_bits size_branch size_rest arg_cont
  area_always true = rw (strchr-none symbol b',' plain, plain)
  area_always false = rw (strchr-none symbol b',' plain, plain)

  -- For a branch to a symbol of C, the size that s1c88instructionSize counts is the size of the code
  -- that the assembler emits: for every condition, short, long and to another area.
  pub branch_size_exact :
      (b : Branch) → instruction_size str_str (branch_line b symbol) ≡ size (branch_code b)
  branch_size_exact (short call always) = short_always call
  branch_size_exact (short true (basic k)) = short_call_basic str_str symbol k
  branch_size_exact (short true (signed_cc k)) = short_call_signed str_str symbol k
  branch_size_exact (short false (basic k)) = short_jump_basic str_str symbol k
  branch_size_exact (short false (signed_cc k)) = short_jump_signed str_str symbol k
  branch_size_exact (long call none) = long_always call
  branch_size_exact (long call (some k)) = long_basic str_str symbol call k
  branch_size_exact djr_nz = djr-IsExact str_str symbol
  branch_size_exact (jp_label always) = jp_always
  branch_size_exact (jp_label (basic k)) = jp_basic str_str symbol k
  branch_size_exact (jp_label (signed_cc k)) = jp_signed str_str symbol k
  branch_size_exact (other_area call always) = area_always call
  branch_size_exact (other_area true (basic k)) = area_call_basic str_str symbol k
  branch_size_exact (other_area true (signed_cc k)) = area_call_signed str_str symbol k
  branch_size_exact (other_area false (basic k)) = area_jump_basic str_str symbol k
  branch_size_exact (other_area false (signed_cc k)) = area_jump_signed str_str symbol k
