-- ===== src/Peep.antt =====
-- src/s1c88/peep.c: what the peephole optimizer asks of the target.
pub mod Text
pub mod Names
pub mod Env
pub mod Flags
pub mod Reads
pub mod Writes
pub mod Scan
pub mod NotUsed
pub mod Live
pub mod Branches
pub mod Effects
pub mod Size
pub mod Print
pub mod Contract
pub mod Tests
