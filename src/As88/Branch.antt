-- ===== src/As88/Branch.antt =====
-- sdas/as88/s1c88mch.c, `machine`: the instructions with a branch target.
pub mod Flags
pub mod Run
pub mod Codes
pub mod Taken
use sdcc.Common.{ℕ, ◌+◌, Bool, Option, none, some, List, [], ◌∷◌, ◌++◌, get_or, if◌then◌else◌}
use sdcc.As88.Emit.{
  Item, outab, outrb, outrw, outr1be, outchk, xerr, Source, e1, e2, based, past, pcr,
}

pub data Cc : Type 0 where
  cc_c cc_nc cc_z cc_nz : Cc

abbrev pub cc_code : Cc → ℕ
cc_code cc_c = 0
cc_code cc_nc = 1
cc_code cc_z = 2
cc_code cc_nz = 3

-- The rows of CNDE.
pub data SignedCc : Type 0 where
  cc_lt cc_le cc_gt cc_ge cc_v cc_nv cc_p cc_m : SignedCc
  cc_f0 cc_f1 cc_f2 cc_f3 cc_nf0 cc_nf1 cc_nf2 cc_nf3 : SignedCc

abbrev pub signed_code : SignedCc → ℕ
signed_code cc_lt = 0
signed_code cc_le = 1
signed_code cc_gt = 2
signed_code cc_ge = 3
signed_code cc_v = 4
signed_code cc_nv = 5
signed_code cc_p = 6
signed_code cc_m = 7
signed_code cc_f0 = 8
signed_code cc_f1 = 9
signed_code cc_f2 = 10
signed_code cc_f3 = 11
signed_code cc_nf0 = 12
signed_code cc_nf1 = 13
signed_code cc_nf2 = 14
signed_code cc_nf3 = 15

-- The condition in front of the target.
pub data Cond : Type 0 where
  always : Cond
  basic : Cc → Cond
  signed_cc : SignedCc → Cond

abbrev pub invcce : List ℕ
invcce = 3 ∷ 2 ∷ 1 ∷ 0 ∷ 5 ∷ 4 ∷ 7 ∷ 6 ∷ 12 ∷ 13 ∷ 14 ∷ 15 ∷ 8 ∷ 9 ∷ 10 ∷ 11 ∷ []

abbrev inverted : SignedCc → ℕ
inverted k = get_or invcce (signed_code k) 0

-- The displacement of a relative branch, for the linker: `mchpcr` never resolves it.
abbrev rel8 : List Item
rel8 = outrb (past (based e2)) pcr ∷ []

abbrev pub rel16 : List Item
rel16 = outrw (past (based e2)) pcr ∷ []

-- S_JRS and S_CARS.
unfoldable pub encode_short : Bool → Cond → List Item
encode_short call always = outab (if call then 0xF0 else 0xF1) ∷ rel8
encode_short call (basic k) = outab ((if call then 0xE0 else 0xE4) + cc_code k) ∷ rel8
encode_short call (signed_cc k) =
    outab 0xCE ∷ outab ((if call then 0xF0 else 0xE0) + signed_code k) ∷ rel8

-- S_JRL and S_CARL, which know no signed condition.
unfoldable pub encode_long : Bool → Option Cc → List Item
encode_long call none = outab (if call then 0xF2 else 0xF3) ∷ rel16
encode_long call (some k) = outab ((if call then 0xE8 else 0xEC) + cc_code k) ∷ rel16

-- S_DJR: without the condition NZ there is an error, and no code before the displacement.
unfoldable pub encode_djr : Option Cc → List Item
encode_djr (some cc_nz) = outab 0xF5 ∷ rel8
encode_djr _ = xerr ∷ rel8

-- `jp` to a label: a signed condition hops over a long jump when it does not hold.
unfoldable pub encode_jp_label : Cond → List Item
encode_jp_label always = outab 0xF3 ∷ outrw (past (based e1)) pcr ∷ []
encode_jp_label (basic k) = outab (0xEC + cc_code k) ∷ rel16
encode_jp_label (signed_cc k) =
    outab 0xCE ∷ outab (0xE0 + inverted k) ∷ outab 4 ∷ outab 0xF3 ∷ rel16

-- S_PCALL and S_PJUMP to a target in the same area: short, where `exceeded` tells that the output
-- pass finds the target out of range, or long.
unfoldable pub local_short : Bool → Option Cc → Bool → List Item
local_short call k exceeded =
    outab (elim k [
      | none ↦ if call then 0xF0 else 0xF1
      | some k ↦ (if call then 0xE0 else 0xE4) + cc_code k
    ])
    ∷ ((if exceeded then xerr ∷ [] else []) ++ (outrb (past e1) pcr ∷ []))

unfoldable pub local_long : Bool → Option Cc → List Item
local_long call k =
    outab (elim k [
      | none ↦ if call then 0xF2 else 0xF3
      | some k ↦ (if call then 0xE8 else 0xEC) + cc_code k
    ])
    ∷ outrw (past e1) pcr
    ∷ []

-- `ld nb,#bank`, then the long branch.
abbrev pub banked_branch : ℕ → List Item
banked_branch op = outab 0xCE ∷ outab 0xC4 ∷ outr1be e1 ∷ outab op ∷ outrw (past e1) pcr ∷ []

-- The slot for a target in another area.
unfoldable pub banked : Bool → Cond → List Item
banked call always = outchk 3 5 ∷ banked_branch (if call then 0xF2 else 0xF3)
banked call (basic k) = outchk 3 5 ∷ banked_branch ((if call then 0xE8 else 0xEC) + cc_code k)
banked call (signed_cc k) =
    outchk 6 5
    ∷ outab 0xCE
    ∷ outab (0xE0 + inverted k)
    ∷ outab 7
    ∷ banked_branch (if call then 0xF2 else 0xF3)
