-- ===== src/Minxdump/Header/Accepts.antt =====
-- minxdump takes the header that romgen writes.
use sdcc.Common.{
  ℕ, ◌+◌, ◌^◌, ◌<◌, ◌≡◌, refl, ◌∙◌, ap, true, List, [], ◌∷◌, ◌++◌, some, length, take, drop, u32,
  crc32_buf, crc32_buf-lt, arith, ◌∙◌,
}
use sdcc.Romgen.Buffer.{le32}
use sdcc.Romgen.Header.{minx_file, minx_hdrsize}
use sdcc.Romgen.Header.Layout.{fixed_part, minx_header_fields}
use sdcc.Minxdump.Reader.{rle16, rle32, same_id}
use sdcc.Minxdump.RoundTrip.{rle32-le32}
use sdcc.Minxdump.Header.{header_failures}

module _ (body : List ℕ) (fits : minx_hdrsize + length body < 2 ^ 32) where
  abbrev size_field : ℕ
  size_field = u32 (minx_hdrsize + length body)

  layout : minx_file body ≡ fixed_part ++ (le32 size_field ++ (le32 (crc32_buf body) ++ body))
  unfolding minx_file
  layout = ap (λ h. h ++ body) (minx_header_fields body) ∙ refl

  size_read : rle32 (minx_file body) 8 ≡ minx_hdrsize + length body
  size_read =
      let read : rle32 (minx_file body) 8 ≡ size_field =
        rw layout
          (rle32-le32 fixed_part (le32 (crc32_buf body) ++ body) 8 size_field (omega arith) refl) in
      omega arith

  crc_read : rle32 (minx_file body) 12 ≡ crc32_buf body
  crc_read =
      rw layout (
        rle32-le32 (fixed_part ++ le32 size_field) body 12 (crc32_buf body) (crc32_buf-lt body)
          refl)

  version_read : rle16 (minx_file body) 4 ≡ 1
  unfolding rle16
  version_read = rw layout refl

  magic_read : same_id (take 4 (minx_file body)) (b'M' ∷ b'I' ∷ b'N' ∷ b'X' ∷ []) ≡ true
  unfolding same_id
  magic_read = rw layout refl

  body_read : drop 16 (minx_file body) ≡ body
  body_read = rw layout refl

  length-minx_file : length (minx_file body) ≡ minx_hdrsize + length body
  length-minx_file = rw layout (omega arith)

  -- minxdump takes the header that romgen writes in front of a body, its size and its checksum included,
  -- for a file below 4 GB.
  pub header_accepted : header_failures (minx_file body) ≡ some 0
  unfolding header_failures
  header_accepted =
      rw
        (
          header_failures, version_read, size_read, crc_read, magic_read, body_read,
          length-minx_file,
        )
        (ground arith)
