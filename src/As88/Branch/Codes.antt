-- ===== src/As88/Branch/Codes.antt =====
-- How the chip takes each code of a branch, and the hop over a long one.
use sdcc.Common.{
  ℕ, zero, ◌+◌, ◌<◌, ◌-◌, leb, ltb, tests, ◌≡◌, refl, Bool, true, false, not, Option, none, some,
  List, [], ◌∷◌, if◌then◌else◌, arith,
}
use sdcc.As88.Emit.{Source, pcr, origin, Item, outab, outrb, outrw}
use sdcc.As88.Branch.{
  Cc, cc_c, cc_nc, cc_z, cc_nz, SignedCc, cc_lt, cc_le, cc_gt, cc_ge, cc_v, cc_nv, cc_p, cc_m,
  cc_f0, cc_f1, cc_f2, cc_f3, cc_nf0, cc_nf1, cc_nf2, cc_nf3, Cond, always, basic, inverted,
  signed_code, cc_code,
}
use sdcc.As88.Branch.Flags.{Flags, holds, signed_holds, on_chip, inverted-on_chip}
use sdcc.As88.Branch.Run.{Outcome, Bank, own, falls, jumps, calls, bias, is_seen, run}

abbrev pub reach : Bool → Source → Bank → Outcome
reach true s nb = calls s nb
reach false s nb = jumps s nb

-- To the operand in a bank if the condition holds, or on behind the code.
abbrev pub branch : Bool → Cond → Source → Bank → Flags → Outcome
branch call k s nb f = if holds k f then reach call s nb else falls

abbrev pub condition : Option Cc → Cond
condition none = always
condition (some k) = basic k

-- A hop that is taken exactly when the condition fails.
hop_or_reach :
    (x : Bool) {y : Bool} (o : Outcome)
    → y ≡ not x
    → (if y then falls else o) ≡ (if x then o else falls)
hop_or_reach true o e = rw e refl
hop_or_reach false o e = rw e refl

pub hop :
    (k : SignedCc) (f : Flags) (o : Outcome)
    → (if on_chip (inverted k) f then falls else o) ≡ (if signed_holds k f then o else falls)
hop k f o = hop_or_reach (signed_holds k f) o (inverted-on_chip k f)

pub inverted-lt : (k : SignedCc) → inverted k < 16
inverted-lt cc_lt = omega tests
inverted-lt cc_le = omega tests
inverted-lt cc_gt = omega tests
inverted-lt cc_ge = omega tests
inverted-lt cc_v = omega tests
inverted-lt cc_nv = omega tests
inverted-lt cc_p = omega tests
inverted-lt cc_m = omega tests
inverted-lt cc_f0 = omega tests
inverted-lt cc_f1 = omega tests
inverted-lt cc_f2 = omega tests
inverted-lt cc_f3 = omega tests
inverted-lt cc_nf0 = omega tests
inverted-lt cc_nf1 = omega tests
inverted-lt cc_nf2 = omega tests
inverted-lt cc_nf3 = omega tests

pub signed_code-lt : (k : SignedCc) → signed_code k < 16
signed_code-lt cc_lt = omega tests
signed_code-lt cc_le = omega tests
signed_code-lt cc_gt = omega tests
signed_code-lt cc_ge = omega tests
signed_code-lt cc_v = omega tests
signed_code-lt cc_nv = omega tests
signed_code-lt cc_p = omega tests
signed_code-lt cc_m = omega tests
signed_code-lt cc_f0 = omega tests
signed_code-lt cc_f1 = omega tests
signed_code-lt cc_f2 = omega tests
signed_code-lt cc_f3 = omega tests
signed_code-lt cc_nf0 = omega tests
signed_code-lt cc_nf1 = omega tests
signed_code-lt cc_nf2 = omega tests
signed_code-lt cc_nf3 = omega tests

pub signed_code-on_chip : (k : SignedCc) (f : Flags) → on_chip (signed_code k) f ≡ signed_holds k f
signed_code-on_chip cc_lt f = refl
signed_code-on_chip cc_le f = refl
signed_code-on_chip cc_gt f = refl
signed_code-on_chip cc_ge f = refl
signed_code-on_chip cc_v f = refl
signed_code-on_chip cc_nv f = refl
signed_code-on_chip cc_p f = refl
signed_code-on_chip cc_m f = refl
signed_code-on_chip cc_f0 f = refl
signed_code-on_chip cc_f1 f = refl
signed_code-on_chip cc_f2 f = refl
signed_code-on_chip cc_f3 f = refl
signed_code-on_chip cc_nf0 f = refl
signed_code-on_chip cc_nf1 f = refl
signed_code-on_chip cc_nf2 f = refl
signed_code-on_chip cc_nf3 f = refl

-- A short jump over what follows, by its code on the chip.
pub run-hop :
    (f : Flags) (seen : Bool) (n d : ℕ) (items : List Item)
    → n < 16
    → run f seen own zero (outab 0xCE ∷ outab (0xE0 + n) ∷ outab d ∷ items)
      ≡ (if on_chip n f then run f seen own (d - 1) items else run f seen own zero items)
run-hop f seen n d items lt =
    let low : leb 0xE0 (0xE0 + n) ≡ true = ground arith in
    let high : ltb (0xE0 + n) 0xF0 ≡ true = ground arith in
    let back : 0xE0 + n - 0xE0 ≡ n = omega arith in rw (low, high, back) refl

-- A relative branch with a basic condition, in its two lengths.
pub run-short :
    (call : Bool) (k : Cc) (s : Source) (seen : Bool) (nb : Bank) (f : Flags)
    → is_seen seen s ≡ true
    → bias s ≡ 1
    → run f seen nb zero (outab ((if call then 0xE0 else 0xE4) + cc_code k) ∷ outrb s pcr ∷ [])
      ≡ branch call (basic k) (origin s) nb f
run-short true cc_c s seen nb f v h = rw (v, h) refl
run-short true cc_nc s seen nb f v h = rw (v, h) refl
run-short true cc_z s seen nb f v h = rw (v, h) refl
run-short true cc_nz s seen nb f v h = rw (v, h) refl
run-short false cc_c s seen nb f v h = rw (v, h) refl
run-short false cc_nc s seen nb f v h = rw (v, h) refl
run-short false cc_z s seen nb f v h = rw (v, h) refl
run-short false cc_nz s seen nb f v h = rw (v, h) refl

pub run-long :
    (call : Bool) (k : Cc) (s : Source) (seen : Bool) (nb : Bank) (f : Flags)
    → is_seen seen s ≡ true
    → bias s ≡ 1
    → run f seen nb zero (outab ((if call then 0xE8 else 0xEC) + cc_code k) ∷ outrw s pcr ∷ [])
      ≡ branch call (basic k) (origin s) nb f
run-long true cc_c s seen nb f v h = rw (v, h) refl
run-long true cc_nc s seen nb f v h = rw (v, h) refl
run-long true cc_z s seen nb f v h = rw (v, h) refl
run-long true cc_nz s seen nb f v h = rw (v, h) refl
run-long false cc_c s seen nb f v h = rw (v, h) refl
run-long false cc_nc s seen nb f v h = rw (v, h) refl
run-long false cc_z s seen nb f v h = rw (v, h) refl
run-long false cc_nz s seen nb f v h = rw (v, h) refl

-- A short branch with a signed condition, by its code on the chip.
pub run-signed :
    (call : Bool) (n : ℕ) (s : Source) (seen : Bool) (f : Flags)
    → n < 16
    → is_seen seen s ≡ true
    → bias s ≡ 1
    → run f seen own zero
        (outab 0xCE ∷ outab ((if call then 0xF0 else 0xE0) + n) ∷ outrb s pcr ∷ [])
      ≡ (if on_chip n f then reach call (origin s) own else falls)
run-signed true n s seen f lt v h =
    let high : leb 0xF0 (0xF0 + n) ≡ true = ground arith in
    let back : 0xF0 + n - 0xF0 ≡ n = omega arith in rw (high, back, v, h) refl
run-signed false n s seen f lt v h =
    let below : leb 0xF0 (0xE0 + n) ≡ false = ground arith in
    let low : leb 0xE0 (0xE0 + n) ≡ true = ground arith in
    let back : 0xE0 + n - 0xE0 ≡ n = omega arith in rw (below, low, back, v, h) refl
