-- ===== src/As88.antt =====
-- sdas/as88: the S1C88 assembler's instruction encoder.
pub mod Operand
pub mod Emit
pub mod Expr
pub mod Lexer
pub mod Tables
pub mod Load
pub mod Alu
pub mod Other
pub mod Machine
pub mod Branch
pub mod Manual
pub mod Relax
pub mod Tests
