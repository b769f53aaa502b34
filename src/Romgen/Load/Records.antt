-- ===== src/Romgen/Load/Records.antt =====
-- Intel-HEX records as data: how a linker prints them, and what they mean for a memory. Neither
-- the text, nor the arrays of tools/romgen.c, nor their growth is seen here.
use sdcc.Common.{
  ℕ, ◌+◌, ◌-◌, ◌/◌, ◌%◌, ◌^◌, ◌<◌, ◌≡◌, false, List, [], ◌∷◌, Option, some, ◌==◌, if◌then◌else◌,
  length,
}
use sdcc.Romgen.Hex.{Line, digit}
use sdcc.Romgen.Address.{FarRange, Phys, mapped, below_base, overflow, phys_of, cart_base}
use sdcc.Romgen.Load.{linker_address}
use sdcc.Romgen.Result.{Result, ok, err, ◌>>=◌, below_cart, common_overflow}

-- `note` is a line that is no record.
pub data HexRecord : Type 0 where
  note : ℕ → Line → HexRecord
  ela : ℕ → HexRecord
  bytes : ℕ → List ℕ → HexRecord
  finish : HexRecord

abbrev pub print_byte : ℕ → Line
print_byte v = digit (v / 16) ∷ digit (v % 16) ∷ []

abbrev pub print_bytes : List ℕ → Line → Line
print_bytes [] tail = tail
print_bytes (v ∷ vs) tail = digit (v / 16) ∷ digit (v % 16) ∷ print_bytes vs tail

-- The tail stands for the checksum and the line's end.
abbrev pub print_record : Line → HexRecord → Line
print_record tail (note c text) = c ∷ text
print_record tail (ela upper) =
    b':' ∷ print_bytes (2 ∷ 0 ∷ 0 ∷ 4 ∷ upper / 256 ∷ upper % 256 ∷ []) tail
print_record tail (bytes addr vs) =
    b':' ∷ print_bytes (length vs ∷ addr / 256 ∷ addr % 256 ∷ 0 ∷ []) (print_bytes vs tail)
print_record tail finish = b':' ∷ print_bytes (0 ∷ 0 ∷ 0 ∷ 1 ∷ []) tail

abbrev pub All {ℓ κ} : {A : Type ℓ} → (A → Type κ) → List A → Type κ
All P [] = Unit
All P (x ∷ xs) = P x × All P xs

-- The values fit their fields, and a note does not begin like a record.
abbrev pub IsWellFormed : HexRecord → Type 0
IsWellFormed (note c text) = (c == b':') ≡ false
IsWellFormed (ela upper) = upper < 2 ^ 16
IsWellFormed (bytes addr vs) = (addr < 2 ^ 16) × (length vs < 256) × All (λ v. v < 256) vs
IsWellFormed finish = Unit

-- A memory gives the byte at each offset that the program defines.
pub record Memory : Type 0 where
  pub at : ℕ → Option ℕ
  pub upper : ℕ

abbrev pub update : ℕ → ℕ → (ℕ → Option ℕ) → ℕ → Option ℕ
update off v m i = if off == i then some v else m i

unfoldable pub exec_byte : Phys → ℕ → ℕ → Memory → Result Memory
exec_byte (mapped phys) a v m = ok (record m { at = update (phys - cart_base) v m.at })
exec_byte (below_base phys) a v m = err (below_cart phys)
exec_byte overflow a v m = err (common_overflow (a % 2 ^ 16))

module _ (far : List FarRange) where
  unfoldable pub exec_bytes : ℕ → List ℕ → Memory → Result Memory
  exec_bytes offset [] m = ok m
  exec_bytes offset (v ∷ vs) m = do
    let a = linker_address m.upper offset
    m' ← exec_byte (phys_of far a) a v m
    exec_bytes (offset + 1) vs m'

  unfoldable pub exec : List HexRecord → Memory → Result Memory
  exec [] m = ok m
  exec (note c text ∷ rs) m = exec rs m
  exec (ela upper ∷ rs) m = exec rs (record m { upper = upper })
  exec (bytes addr vs ∷ rs) m = exec_bytes addr vs m >>= exec rs
  exec (finish ∷ rs) m = ok m
