-- ===== src/Romgen/Address.antt =====
-- tools/romgen.c, `is_far` and `phys_of`: linker addresses and physical cartridge addresses.
pub mod Banks
use sdcc.Common.{
  ℕ, ◌+◌, ◌*◌, ◌%◌, ◌^◌, Bool, false, ◌&&◌, ◌||◌, List, [], ◌∷◌, leb, ◌==◌, if◌then◌else◌, u32, shr,
}

abbrev pub cart_base : ℕ
cart_base = 0x2100

pub record FarRange : Type 0 where
  pub lo : ℕ
  pub hi : ℕ

unfoldable pub is_far : List FarRange → ℕ → Bool
is_far [] a = false
is_far (r ∷ rs) a = (leb r.lo a && leb a r.hi) || is_far rs a

-- The return codes 0, 1 and 2 of `phys_of`, the first two with `*out`.
pub data Phys : Type 0 where
  mapped : ℕ → Phys
  below_base : ℕ → Phys
  overflow : Phys

abbrev pub check_base : ℕ → Phys
check_base out = if leb cart_base out then mapped out else below_base out

unfoldable pub phys_of : List FarRange → ℕ → Phys
phys_of far a =
    if is_far far a
    then check_base a
    else let bank = shr a 16 in
      let logic = a % 2 ^ 16 in
      if bank == 0 && leb 0x8000 logic
      then overflow
      else check_base (if bank == 0 then logic else u32 (bank * 0x8000 + logic % 2 ^ 15))
