-- ===== src/Romgen/Lines/Bytes.antt =====
-- The bytes of the line table that romgen writes.
use sdcc.Common.{
  ℕ, ◌+◌, ◌*◌, ◌^◌, ◌<◌, ◌≡◌, refl, sym, ◌∙◌, List, [], ◌∷◌, ◌++◌, length, append_assoc, append-nil,
  arith,
}
use sdcc.Romgen.Buffer.{Buf, no_buf, buf_u32, le32}
use sdcc.Romgen.Buffer.Words.{buf_u32-bytes}
use sdcc.Romgen.Chunk.Frame.{frame, IsAligned}
use sdcc.Romgen.Chunk.Blob.{ck_blob-frame}
use sdcc.Romgen.Lines.{LineRec, put_line, line_records, put_lines, line_id}

abbrev pub row : LineRec → List ℕ
row l = le32 l.phys ++ (le32 l.file ++ (le32 l.line ++ le32 l.scope))

abbrev pub line_bytes : List LineRec → List ℕ
line_bytes [] = []
line_bytes (l ∷ ls) = row l ++ line_bytes ls

pub length-line_bytes : (ls : List LineRec) → length (line_bytes ls) ≡ 16 * length ls
length-line_bytes [] = refl
length-line_bytes (l ∷ ls) = let ih = length-line_bytes ls in omega arith

put_line-bytes : (rec : Buf) (l : LineRec) → (put_line rec l).bytes ≡ rec.bytes ++ row l
put_line-bytes rec l =
    let a = buf_u32 rec l.phys in
    let b = buf_u32 a l.file in
    let c = buf_u32 b l.line in
    rw
      (
        buf_u32-bytes c l.scope,
        buf_u32-bytes b l.line,
        buf_u32-bytes a l.file,
        buf_u32-bytes rec l.phys,
      )
      (simp append_assoc)

line_records-bytes :
    (rec : Buf) (ls : List LineRec) → (line_records rec ls).bytes ≡ rec.bytes ++ line_bytes ls
line_records-bytes rec [] = sym (append-nil rec.bytes)
line_records-bytes rec (l ∷ ls) =
    line_records-bytes (put_line rec l) ls
    ∙ rw (put_line-bytes rec l) (append_assoc rec.bytes (row l) (line_bytes ls))

-- The chunk of a table that is not empty.
pub put_lines-frame :
    (l : LineRec) (ls : List LineRec) (body : Buf)
    → IsAligned body.bytes
    → length body.bytes + 8 + 16 * length (l ∷ ls) < 2 ^ 32
    → (put_lines (l ∷ ls) body).bytes ≡ body.bytes ++ frame line_id (line_bytes (l ∷ ls))
unfolding put_lines
put_lines-frame l ls body aligned fits = rw (line_records-bytes no_buf (l ∷ ls)) (
    ck_blob-frame body line_id (line_bytes (l ∷ ls)) refl aligned
      (let n = length-line_bytes (l ∷ ls) in omega arith))
