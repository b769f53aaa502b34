-- ===== src/As88/Manual.antt =====
-- The S1C88's operation code map (docs/s1c88/instruction-set.md, and
-- third_party/minimon-core/tools/s1c88.csv): the description the encoder is held against.
pub mod Main
pub mod Ce
pub mod Cf
pub mod Decode
pub mod Same
pub mod Conforms
pub mod Sweep
pub mod Encoder
pub mod Complete
use sdcc.Common.{ℕ}
use sdcc.As88.Machine.{Instr}

-- An instruction, and how many operand bytes follow its code.
pub data Row : Type 0 where
  row : Instr → ℕ → Row
  other : Row
