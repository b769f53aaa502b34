-- ===== src/Minxdump/Header.antt =====
-- tools/minxdump.c, `main`: the checks of the header.
pub mod Accepts
use sdcc.Common.{
  ℕ, zero, suc, ◌+◌, Bool, true, false, not, ◌||◌, List, [], ◌∷◌, Option, none, some, ltb, ◌==◌,
  if◌then◌else◌, length, take, drop, crc32_buf,
}
use sdcc.Minxdump.Reader.{File, rle16, rle32, same_id}

abbrev minx_hdrsize : ℕ
minx_hdrsize = 16

abbrev minx_magic : List ℕ
minx_magic = b'M' ∷ b'I' ∷ b'N' ∷ b'X' ∷ []

-- One more failure where a check does not hold.
abbrev fail_unless : Bool → ℕ → ℕ
fail_unless ok failures = if ok then failures else suc failures

-- The number of failed checks, with which main goes on if it is 0; none for a bad magic.
unfoldable pub header_failures : File → Option ℕ
header_failures file =
    if ltb (length file) minx_hdrsize || not (same_id (take 4 file) minx_magic)
    then none
    else some (
        fail_unless (rle16 file 4 == 1) (
          fail_unless (rle32 file 8 == length file)
            (fail_unless (crc32_buf (drop minx_hdrsize file) == rle32 file 12) 0)))
