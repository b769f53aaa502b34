-- ===== src/Romgen/Load.antt =====
-- tools/romgen.c, `main`: the loop over the records of the Intel-HEX file, and the flat ROM.
pub mod Records
pub mod Bytes
pub mod Lines
pub mod Refines
pub mod Flat
use sdcc.Common.{
  ℕ, zero, suc, ◌+◌, ◌*◌, ◌^◌, Bool, false, List, [], ◌∷◌, Option, none, some, ◌==◌, if◌then◌else◌,
  u32, shl, bit_or, take, not,
}
use sdcc.Romgen.Hex.{Line, char_at, hexbyte}
use sdcc.Romgen.Address.{FarRange, phys_of}
use sdcc.Romgen.Rom.{Rom, Block, start, place, bank_limit}
use sdcc.Romgen.Result.{malformed_record, bad_ela, bad_data_byte, Result, ok, err, ◌>>=◌}

-- `(hi << 16) | (addr + j)`: an offset past 0xFFFF runs into the bits of `hi`.
abbrev pub linker_address : ℕ → ℕ → ℕ
linker_address hi offset = bit_or (u32 (shl hi 16)) offset

module _ (alloc : Block → ℕ → Bool) (far : List FarRange) where
  unfoldable pub data_byte : Option ℕ → ℕ → Rom → Result Rom
  data_byte none offset r = err bad_data_byte
  data_byte (some val) offset r =
      let a = linker_address r.hi offset in place alloc a val (phys_of far a) r

  -- Byte `j` and the `left - 1` bytes behind it.
  unfoldable pub data_bytes : ℕ → ℕ → Line → ℕ → Rom → Result Rom
  data_bytes zero j line addr r = ok r
  data_bytes (suc left) j line addr r = do
    r' ← data_byte (hexbyte line (9 + j * 2)) (addr + j) r
    data_bytes left (j + 1) line addr r'

  unfoldable pub set_ela : Option ℕ → Option ℕ → Rom → Result Rom
  set_ela (some d1) (some d0) r = ok (record r { hi = d1 * 2 ^ 8 + d0 })
  set_ela _ _ r = err bad_ela

  -- The dispatch on the record's type; the flag is the `break` at an end record.
  unfoldable pub record_body : ℕ → ℕ → ℕ → Line → Rom → Result (Rom × Bool)
  record_body ln addr typ line r =
      if typ == 4
      then set_ela (hexbyte line 9) (hexbyte line 11) r >>= (λ r'. ok (r', false))
      else if typ == 0
      then data_bytes ln 0 line addr r >>= (λ r'. ok (r', false))
      else ok (r, typ == 1)

  -- The four header bytes, refused together if one is none.
  unfoldable pub record_header :
      Option ℕ → Option ℕ → Option ℕ → Option ℕ → Line → Rom → Result (Rom × Bool)
  record_header (some ln) (some a1) (some a0) (some typ) line r =
      record_body ln (a1 * 2 ^ 8 + a0) typ line r
  record_header _ _ _ _ line r = err malformed_record

  unfoldable pub load_line : Line → Rom → Result (Rom × Bool)
  load_line line r =
      if not (char_at line 0 == b':')
      then ok (r, false)
      else record_header (hexbyte line 1) (hexbyte line 3) (hexbyte line 5) (hexbyte line 7) line r

  unfoldable pub load : List Line → Rom → Result Rom
  load [] r = ok r
  load (line ∷ lines) r = do
    step ← load_line line r
    if step.1 then ok step.0 else load lines step.0

  -- The bytes that the flat output file gets.
  unfoldable pub flat : List Line → Result (List ℕ)
  flat lines = do r ← load lines start; ok (take r.size r.img)

-- The loop that counts the banks touched, over `left` banks from `bi`.
unfoldable pub count_banks : ℕ → ℕ → (ℕ → Bool) → ℕ
count_banks zero bi hit = 0
count_banks (suc left) bi hit = (if hit bi then 1 else 0) + count_banks left (bi + 1) hit

unfoldable pub n_banks : Rom → ℕ
unfolding count_banks
n_banks r = count_banks bank_limit 0 r.bankhit
