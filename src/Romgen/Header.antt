-- ===== src/Romgen/Header.antt =====
-- tools/romgen.c, `main`: the header of a MINX file, and the file.
pub mod Layout
use sdcc.Common.{ℕ, ◌+◌, ◌^◌, List, [], ◌∷◌, ◌++◌, length, replicate, u32, crc32_buf}
use sdcc.Romgen.Buffer.{wle16, wle32}

abbrev pub minx_version : ℕ
minx_version = 1

abbrev pub minx_hdrsize : ℕ
minx_hdrsize = 16

abbrev pub minx_id : List ℕ
minx_id = b'M' ∷ b'I' ∷ b'N' ∷ b'X' ∷ []

-- The array is not set before; each of its bytes is written.
unfoldable pub minx_header : List ℕ → List ℕ
minx_header body =
    let hdr = minx_id ++ replicate (12) 0 in
    let hdr = wle16 hdr 4 minx_version in
    let hdr = wle16 hdr 6 0 in
    let hdr = wle32 hdr 8 (u32 (minx_hdrsize + length body)) in wle32 hdr 12 (crc32_buf body)

unfoldable pub minx_file : List ℕ → List ℕ
minx_file body = minx_header body ++ body
