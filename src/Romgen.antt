-- ===== src/Romgen.antt =====
-- tools/romgen.c: the linker's Intel-HEX output becomes a flat ROM or a MINX container.
pub mod Hex
pub mod Address
pub mod Result
pub mod Rom
pub mod Load
pub mod Buffer
pub mod Chunk
pub mod Segments
pub mod Header
pub mod Lines
pub mod Intern
pub mod Vars
mod Tests
