-- ===== src/As88/Manual/Encoder.antt =====
-- The encoder of sdas/as88/s1c88mch.c and the operation code map.
use sdcc.Common.{◌≡◌, ◌≢◌, ◌⊎◌, inl, inr, false, Bool-cases}
use sdcc.As88.Emit.{no_code}
use sdcc.As88.Machine.{Instr, inherent, unary, binary, machine}
use sdcc.As88.Manual.{Row, row, other}
use sdcc.As88.Manual.Same.{operands, same, same-eq}
use sdcc.As88.Manual.Conforms.{Codes, conforms-Codes, every, for_all}
use sdcc.As88.Manual.Sweep.{unary_ok, unary_test, binary_ok, binary_test, inherent_test, ld_sp_sp}

refuted : (i : Instr) → i ≢ ld_sp_sp → same i ld_sp_sp ≡ false
refuted i differs = elim (Bool-cases (same i ld_sp_sp)) [
  | inl hit ↦ absurd (differs (same-eq i ld_sp_sp hit))
  | inr differ ↦ differ
]

-- For every instruction but `ld sp,sp` the encoder reports an error and emits nothing, or emits a
-- code that the operation code map reads as that very instruction, followed by the operands'
-- expressions in order, in as many bytes as the map says.
pub machine-Codes : (i : Instr) → i ≢ ld_sp_sp → (machine i ≡ no_code) ⊎ Codes i (machine i)
machine-Codes (inherent o) h = conforms-Codes _ _ (inherent_test o)
machine-Codes (unary k d) h = conforms-Codes _ _ (for_all (unary_ok k) (unary_test k) d)
machine-Codes (binary k d s) h = conforms-Codes _ _ (
    rw (refuted (binary k d s) h) at
      (for_all (binary_ok k d) (for_all (λ d. every (binary_ok k d) operands) (binary_test k) d) s))

abbrev row_instr : Row → Instr → Instr
row_instr (row i n) j = i
row_instr other j = j
