-- ===== src/Minxdump.antt =====
-- tools/minxdump.c: the reader of the MINX container.
pub mod Reader
pub mod RoundTrip
pub mod Flat
pub mod Header
pub mod Lines
mod Tests
