-- ===== src/Romgen/Address/Banks.antt =====
-- `phys_of` over the banks of the cartridge.
use sdcc.Common.{
  ℕ, ◌+◌, ◌*◌, ◌/◌, ◌%◌, ◌^◌, ◌≤◌, ◌<◌, ◌≡◌, ◌↔◌, ◌⊎◌, false, List, arith, ltb, if◌then◌else◌,
  Bool-cases, tests, inl, inr,
}
use sdcc.Romgen.Address.{FarRange, is_far, mapped, overflow, phys_of, cart_base}

-- The addresses that the linker gives to code: the common half of bank 0, or the window of a bank.
abbrev pub IsCode : ℕ → Type 0
IsCode a = (a < 2 ^ 32) × ((a < 0x8000) ⊎ ((0x10000 ≤ a) × (0x8000 ≤ a % 0x10000)))

-- The code address that lies at a physical address.
abbrev pub code_address : ℕ → ℕ
code_address p = if ltb p 0x8000 then p else p / 0x8000 * 0x10000 + 0x8000 + p % 0x8000

-- Outside the far ranges a code address maps to a cartridge address exactly when it is the one
-- code address of that place: no two code addresses share a place, and bank n is the n-th 32 KB.
pub phys_of-code_iff :
    (far : List FarRange) (a p : ℕ)
    → is_far far a ≡ false
    → IsCode a
    → (phys_of far a ≡ mapped p) ↔ (cart_base ≤ p) × (a ≡ code_address p)
unfolding phys_of
phys_of-code_iff far a p f c = (λ e. (ground arith, ground arith), λ (lo, e). ground arith)

-- The common-bank overflow is reported exactly for the upper half of bank 0, far ranges excepted.
pub phys_of-overflow :
    (far : List FarRange) (a : ℕ)
    → (phys_of far a ≡ overflow) ↔ (is_far far a ≡ false) × (0x8000 ≤ a) × (a < 0x10000)
unfolding phys_of
phys_of-overflow far a =
    (λ e. (ground arith, ground arith, ground arith), λ (f, l, u). ground arith)

-- Every place of the first 2 GB of the cartridge has its code address.
pub code_address-IsCode : (p : ℕ) → p < 2 ^ 31 → IsCode (code_address p)
code_address-IsCode p h = elim (Bool-cases (ltb p 0x8000)) [
  | inl low ↦ rw low (omega tests, inl (omega tests))
  | inr high ↦
      rw high (let h' : 0x8000 ≤ p = ground arith in (omega arith, inr (omega arith, omega arith)))
]
