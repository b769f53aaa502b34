-- ===== src/As88/Branch/Taken.antt =====
-- Every form of branch reaches its target exactly when its condition holds.
use sdcc.Common.{zero, ◌≡◌, refl, ◌∙◌, Bool, true, false, Option, none, some, ◌∷◌}
use sdcc.As88.Emit.{Source, e1, e2, based, past, outab}
use sdcc.As88.Branch.{
  Cc, Cond, always, basic, signed_cc, inverted, signed_code, encode_short, encode_long,
  encode_jp_label, rel16, banked_branch, local_short, local_long, banked,
}
use sdcc.As88.Branch.Flags.{Flags}
use sdcc.As88.Branch.Run.{jumps, calls, own, bank_of, run, code_items}
use sdcc.As88.Branch.Codes.{
  branch, condition, hop, inverted-lt, signed_code-lt, signed_code-on_chip, run-hop, run-short,
  run-long, run-signed,
}

short_case :
    (call : Bool) (k : Cond) (seen : Bool) (f : Flags)
    → run f seen own zero (code_items (encode_short call k)) ≡ branch call k e2 own f
unfolding encode_short
short_case true always seen f = refl
short_case false always seen f = refl
short_case call (basic k) seen f = run-short call k (past (based e2)) seen own f refl refl
short_case call (signed_cc k) seen f =
    run-signed call (signed_code k) (past (based e2)) seen f (signed_code-lt k) refl refl
    ∙ rw (signed_code-on_chip k f) refl

long_case :
    (call : Bool) (o : Option Cc) (seen : Bool) (f : Flags)
    → run f seen own zero (code_items (encode_long call o)) ≡ branch call (condition o) e2 own f
unfolding encode_long
long_case true none seen f = refl
long_case false none seen f = refl
long_case call (some k) seen f = run-long call k (past (based e2)) seen own f refl refl

local_short_case :
    (call : Bool) (o : Option Cc) (exceeded : Bool) (f : Flags)
    → run f true own zero (code_items (local_short call o exceeded))
      ≡ branch call (condition o) e1 own f
unfolding local_short
local_short_case true none true f = refl
local_short_case true none false f = refl
local_short_case false none true f = refl
local_short_case false none false f = refl
local_short_case call (some k) true f = run-short call k (past e1) true own f refl refl
local_short_case call (some k) false f = run-short call k (past e1) true own f refl refl

local_long_case :
    (call : Bool) (o : Option Cc) (f : Flags)
    → run f true own zero (code_items (local_long call o)) ≡ branch call (condition o) e1 own f
unfolding local_long
local_long_case true none f = refl
local_long_case false none f = refl
local_long_case call (some k) f = run-long call k (past e1) true own f refl refl

-- The slot with a basic condition.
basic_case :
    (call : Bool) (k : Cc) (f : Flags)
    → run f true own zero (code_items (banked call (basic k)))
      ≡ branch call (basic k) e1 (bank_of e1) f
unfolding banked
basic_case call k f = run-long call k (past e1) true (bank_of e1) f refl refl

-- The slot for a banked branch or call reaches the very address of its target in the target's bank
-- exactly when the condition holds, and goes on behind the slot with NB set back when it does not,
-- whatever the flags, for a target in which the linker sees a symbol or an area.
pub banked-taken :
    (call : Bool) (k : Cond) (f : Flags)
    → run f true own zero (code_items (banked call k)) ≡ branch call k e1 (bank_of e1) f
unfolding banked
banked-taken true always f = refl
banked-taken false always f = refl
banked-taken call (basic k) f = basic_case call k f
banked-taken true (signed_cc k) f =
    run-hop f true (inverted k) 7 (banked_branch 0xF2) (inverted-lt k)
    ∙ hop k f (calls e1 (bank_of e1))
banked-taken false (signed_cc k) f =
    run-hop f true (inverted k) 7 (banked_branch 0xF3) (inverted-lt k)
    ∙ hop k f (jumps e1 (bank_of e1))

-- Where the encoder has the target of a `jp`.
abbrev pub jp_target : Cond → Source
jp_target always = e1
jp_target _ = e2

-- `jp` to a label reaches its very address in the same bank exactly when the condition holds, and goes
-- on behind the code when it does not, whatever the flags, also for an absolute target.
pub encode_jp_label-taken :
    (seen : Bool) (k : Cond) (f : Flags)
    → run f seen own zero (code_items (encode_jp_label k)) ≡ branch false k (jp_target k) own f
unfolding encode_jp_label
encode_jp_label-taken seen always f = refl
encode_jp_label-taken seen (basic k) f = run-long false k (past (based e2)) seen own f refl refl
encode_jp_label-taken seen (signed_cc k) f =
    run-hop f seen (inverted k) 4 (outab 0xF3 ∷ rel16) (inverted-lt k) ∙ hop k f (jumps e2 own)

-- The relative branches and calls reach the very address of their target, in the same bank, exactly
-- when their condition holds: `jrs` and `cars`, `jrl` and `carl`, also for an absolute target, and the
-- two forms that a banked branch takes for a target inside its own area. A displacement of one byte is
-- taken to be in range.
pub relative-taken :
    (call exceeded seen : Bool) (k : Cond) (o : Option Cc) (f : Flags)
    → (run f seen own zero (code_items (encode_short call k)) ≡ branch call k e2 own f)
      × (run f seen own zero (code_items (encode_long call o)) ≡ branch call (condition o) e2 own f)
      × (run f true own zero (code_items (local_short call o exceeded))
          ≡ branch call (condition o) e1 own f)
      × (run f true own zero (code_items (local_long call o)) ≡ branch call (condition o) e1 own f)
relative-taken call exceeded seen k o f = (
  short_case call k seen f,
  long_case call o seen f,
  local_short_case call o exceeded f,
  local_long_case call o f,
)
