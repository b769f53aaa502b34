-- ===== src/As88/Branch/Flags.antt =====
-- What the conditions of the S1C88 mean (docs/s1c88/instruction-set.md).
use sdcc.Common.{ℕ, ◌≡◌, refl, Bool, true, false, not, ◌||◌, List, [], ◌∷◌, get_or}
use sdcc.As88.Branch.{
  Cc, cc_c, cc_nc, cc_z, cc_nz, SignedCc, cc_lt, cc_le, cc_gt, cc_ge, cc_v, cc_nv, cc_p, cc_m,
  cc_f0, cc_f1, cc_f2, cc_f3, cc_nf0, cc_nf1, cc_nf2, cc_nf3, inverted, Cond, always, basic,
  signed_cc,
}

pub record Flags : Type 0 where
  pub neg_flag : Bool
  pub over_flag : Bool
  pub carry_flag : Bool
  pub zero_flag : Bool
  pub f0 : Bool
  pub f1 : Bool
  pub f2 : Bool
  pub f3 : Bool

abbrev exclusive : Bool → Bool → Bool
exclusive true b = not b
exclusive false b = b

abbrev pub signed_holds : SignedCc → Flags → Bool
signed_holds cc_lt f = exclusive f.neg_flag f.over_flag
signed_holds cc_le f = f.zero_flag || exclusive f.neg_flag f.over_flag
signed_holds cc_gt f = not (f.zero_flag || exclusive f.neg_flag f.over_flag)
signed_holds cc_ge f = not (exclusive f.neg_flag f.over_flag)
signed_holds cc_v f = f.over_flag
signed_holds cc_nv f = not f.over_flag
signed_holds cc_p f = not f.neg_flag
signed_holds cc_m f = f.neg_flag
signed_holds cc_f0 f = f.f0
signed_holds cc_f1 f = f.f1
signed_holds cc_f2 f = f.f2
signed_holds cc_f3 f = f.f3
signed_holds cc_nf0 f = not f.f0
signed_holds cc_nf1 f = not f.f1
signed_holds cc_nf2 f = not f.f2
signed_holds cc_nf3 f = not f.f3

abbrev pub basic_holds : Cc → Flags → Bool
basic_holds cc_c f = f.carry_flag
basic_holds cc_nc f = not f.carry_flag
basic_holds cc_z f = f.zero_flag
basic_holds cc_nz f = not f.zero_flag

abbrev pub holds : Cond → Flags → Bool
holds always f = true
holds (basic k) f = basic_holds k f
holds (signed_cc k) f = signed_holds k f

-- The conditions in the order of their codes on the chip.
abbrev pub signed_order : List SignedCc
signed_order =
    cc_lt ∷ cc_le ∷ cc_gt ∷ cc_ge ∷ cc_v ∷ cc_nv ∷ cc_p ∷ cc_m ∷ cc_f0 ∷ cc_f1 ∷ cc_f2 ∷ cc_f3
    ∷ cc_nf0 ∷ cc_nf1 ∷ cc_nf2 ∷ cc_nf3 ∷ []

abbrev pub basic_order : List Cc
basic_order = cc_c ∷ cc_nc ∷ cc_z ∷ cc_nz ∷ []

abbrev pub on_chip : ℕ → Flags → Bool
on_chip n f = signed_holds (get_or signed_order n cc_lt) f

abbrev pub basic_on_chip : ℕ → Flags → Bool
basic_on_chip n f = basic_holds (get_or basic_order n cc_c) f

not-not : (x : Bool) → x ≡ not (not x)
not-not true = refl
not-not false = refl

-- The code that `invcce` gives stands for the opposite condition.
pub inverted-on_chip : (k : SignedCc) (f : Flags) → on_chip (inverted k) f ≡ not (signed_holds k f)
inverted-on_chip cc_lt f = refl
inverted-on_chip cc_le f = refl
inverted-on_chip cc_gt f = not-not (f.zero_flag || exclusive f.neg_flag f.over_flag)
inverted-on_chip cc_ge f = not-not (exclusive f.neg_flag f.over_flag)
inverted-on_chip cc_v f = refl
inverted-on_chip cc_nv f = not-not f.over_flag
inverted-on_chip cc_p f = not-not f.neg_flag
inverted-on_chip cc_m f = refl
inverted-on_chip cc_f0 f = refl
inverted-on_chip cc_f1 f = refl
inverted-on_chip cc_f2 f = refl
inverted-on_chip cc_f3 f = refl
inverted-on_chip cc_nf0 f = not-not f.f0
inverted-on_chip cc_nf1 f = not-not f.f1
inverted-on_chip cc_nf2 f = not-not f.f2
inverted-on_chip cc_nf3 f = not-not f.f3
