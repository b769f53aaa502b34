-- ===== src/As88/Tests.antt =====
-- The theorems on sdas/as88 at inputs that meet their hypotheses.
use sdcc.Common.{
  inl, inr, ℕ, Bool, leb, ◌&&◌, ◌↔◌, zero, true, false, some, arith, ◌≡◌, ◌⊎◌, refl, [], ◌∷◌,
}
use sdcc.As88.Expr.{Expr, null, mchpcr, Relocated, mchpcr-Relocated}
use sdcc.As88.Lexer.Apart.{is_plain, table_unique}
use sdcc.As88.Lexer.{AdSym, folded, Text, srch, admode}
use sdcc.As88.Lexer.Matches.{IsText, Matches, srch_iff}
use sdcc.As88.Lexer.Rows.{Finds, admode-Finds}
use sdcc.As88.Tables.{cnd_table}
use sdcc.As88.Operand.{s_r8, reg_a, s_immed}
use sdcc.As88.Emit.{e1, e2, no_code}
use sdcc.As88.Alu.{s_add}
use sdcc.As88.Machine.{Instr, binary, s_ld, s_alu, machine}
use sdcc.As88.Manual.Conforms.{Codes}
use sdcc.As88.Manual.Encoder.{machine-Codes}
use sdcc.As88.Branch.{
  banked, encode_jp_label, encode_short, encode_long, local_short, local_long, signed_cc, cc_lt,
  cc_ge, cc_f1, cc_c,
}
use sdcc.As88.Branch.Flags.{Flags}
use sdcc.As88.Branch.Run.{own, bank_of, run, code_items, calls, jumps, falls}
use sdcc.As88.Relax.{fresh, minit, choices}
use sdcc.As88.Relax.Replay.{relaxation_replayed, long_behind}
use sdcc.As88.Relax.Steps.{sites}
use sdcc.As88.Branch.Taken.{banked-taken, encode_jp_label-taken, relative-taken}

abbrev add_a : Instr
add_a = binary (s_alu s_add) (s_r8 reg_a) s_immed

machine-Codes_example : (machine add_a ≡ no_code) ⊎ Codes add_a (machine add_a)
machine-Codes_example = machine-Codes add_a (λ e. cc)

abbrev ld_a : Instr
ld_a = binary s_ld (s_r8 reg_a) s_immed

abbrev flags : Flags
flags = record {
  neg_flag = true;
  over_flag = false;
  carry_flag = true;
  zero_flag = false;
  f0 = false;
  f1 = true;
  f2 = false;
  f3 = true;
}

banked-taken_example :
    run flags true own zero (code_items (banked true (signed_cc cc_lt))) ≡ calls e1 (bank_of e1)
unfolding banked
banked-taken_example = banked-taken true (signed_cc cc_lt) flags

encode_jp_label-taken_example :
    run flags false own zero (code_items (encode_jp_label (signed_cc cc_ge))) ≡ falls
unfolding encode_jp_label
encode_jp_label-taken_example = encode_jp_label-taken false (signed_cc cc_ge) flags

relative-taken_example :
    (run flags false own zero (code_items (encode_short false (signed_cc cc_f1))) ≡ jumps e2 own)
    × (run flags false own zero (code_items (encode_long false (some cc_c))) ≡ jumps e2 own)
    × (run flags true own zero (code_items (local_short false (some cc_c) false)) ≡ jumps e1 own)
    × (run flags true own zero (code_items (local_long false (some cc_c))) ≡ jumps e1 own)
unfolding encode_short encode_long local_short local_long
relative-taken_example = relative-taken false false false (signed_cc cc_f1) (some cc_c) flags

abbrev same_case : ℕ → ℕ
same_case c = c

abbrev letters : ℕ → Bool
letters c = leb b'a' c && leb c b'z'

abbrev no_blanks : Text → Text
no_blanks ip = ip

-- `nz,l`.
abbrev condition_text : Text
condition_text = b'n' ∷ b'z' ∷ b',' ∷ b'l' ∷ []

condition-IsText : IsText same_case letters condition_text
condition-IsText =
    ((λ e. omega arith), ((λ e. omega arith), ((λ e. omega arith), ((λ e. omega arith), tt))))

srch_iff_example :
    (srch same_case letters condition_text (b'n' ∷ b'z' ∷ []) ≡ some (b',' ∷ b'l' ∷ []))
    ↔ Matches same_case letters condition_text (b'n' ∷ b'z' ∷ []) (b',' ∷ b'l' ∷ [])
srch_iff_example =
    srch_iff same_case letters condition_text (b'n' ∷ b'z' ∷ []) (b',' ∷ b'l' ∷ []) condition-IsText
      ((λ e. omega arith), ((λ e. omega arith), tt))

admode-Finds_example :
    Finds same_case letters cnd_table condition_text
      (admode same_case letters no_blanks cnd_table condition_text)
admode-Finds_example =
    admode-Finds same_case letters no_blanks cnd_table condition_text condition-IsText (
      ((λ e. omega arith), ((λ e. omega arith), tt)),
      (
        ((λ e. omega arith), ((λ e. omega arith), tt)),
        (((λ e. omega arith), tt), (((λ e. omega arith), tt), tt)),
      ),
    )

abbrev nz_row : AdSym
nz_row = record { a_str = b'n' ∷ b'z' ∷ []; a_val = 3 }

plain_kept : (c : ℕ) → is_plain c ≡ true → folded same_case c ≡ c
plain_kept c h = ground arith

table_unique_example : nz_row ≡ nz_row
table_unique_example =
    table_unique same_case plain_kept letters cnd_table nz_row nz_row condition_text
      (b',' ∷ b'l' ∷ []) (b',' ∷ b'l' ∷ []) (inr (inr (inr (inr (inl refl))))) (inl refl) (inl refl)
      (b'n' ∷ b'z' ∷ [], refl, refl, refl) (b'n' ∷ b'z' ∷ [], refl, refl, refl)

-- An absolute target.
abbrev absolute_target : Expr
absolute_target = record { e_flag = 0; e_base = null; e_addr = 0x2100 }

mchpcr-Relocated_example : Relocated absolute_target (mchpcr absolute_target)
mchpcr-Relocated_example = mchpcr-Relocated absolute_target

relaxation_replayed_example :
    ((choices 1 (minit fresh) (1 ∷ 0 ∷ 1 ∷ [])).1 ≡ 1 ∷ 0 ∷ 1 ∷ [])
    × ((choices 2 (minit (choices 1 (minit fresh) (1 ∷ 0 ∷ 1 ∷ [])).0) (0 ∷ 0 ∷ 0 ∷ [])).1
        ≡ long_behind sites (1 ∷ 0 ∷ 1 ∷ []))
relaxation_replayed_example =
    relaxation_replayed (1 ∷ 0 ∷ 1 ∷ []) (0 ∷ 0 ∷ 0 ∷ [])
      (omega arith, (omega arith, (omega arith, tt))) refl
