-- ===== src/Romgen/Lines.antt =====
-- tools/romgen.c: the line table, from its order to its chunk. `qsort` is the C library's.
pub mod Sorted
pub mod Bytes
pub mod Sample
use sdcc.Common.{ℕ, Bool, true, false, List, [], ◌∷◌, ltb, ◌==◌, not, if◌then◌else◌}
use sdcc.Romgen.Buffer.{Buf, no_buf, buf_u32}
use sdcc.Romgen.Chunk.{ck_blob}

pub record LineRec : Type 0 where
  pub phys : ℕ
  pub file : ℕ
  pub line : ℕ
  pub scope : ℕ

-- What a comparison answers: -1, 0 and 1.
pub data Sign : Type 0 where
  below same above : Sign

abbrev pub line_cmp : LineRec → LineRec → Sign
line_cmp x y =
    if not (x.phys == y.phys)
    then if ltb x.phys y.phys then below else above
    else if not (x.line == y.line)
    then if ltb x.line y.line then below else above
    else if not (x.file == y.file)
    then if ltb x.file y.file then below else above
    else same

abbrev pub is_same : Sign → Bool
is_same same = true
is_same _ = false

-- The loop that drops duplicates: the record kept last, and the records behind it.
unfoldable pub drop_same : LineRec → List LineRec → List LineRec
drop_same kept [] = []
drop_same kept (x ∷ xs) =
    let without = drop_same kept xs in
    let with_x = x ∷ drop_same x xs in if is_same (line_cmp x kept) then without else with_x

abbrev pub drop_duplicates : List LineRec → List LineRec
drop_duplicates [] = []
drop_duplicates (x ∷ xs) = x ∷ drop_same x xs

unfoldable pub line_table : (List LineRec → List LineRec) → List LineRec → List LineRec
line_table qsort [] = []
line_table qsort (x ∷ xs) = drop_duplicates (qsort (x ∷ xs))

abbrev pub line_id : List ℕ
line_id = b'L' ∷ b'I' ∷ b'N' ∷ b'E' ∷ []

abbrev pub put_line : Buf → LineRec → Buf
put_line rec l = buf_u32 (buf_u32 (buf_u32 (buf_u32 rec l.phys) l.file) l.line) l.scope

abbrev pub line_records : Buf → List LineRec → Buf
line_records rec [] = rec
line_records rec (l ∷ ls) = line_records (put_line rec l) ls

-- An empty table has no chunk.
unfoldable pub put_lines : List LineRec → Buf → Buf
put_lines [] body = body
put_lines (l ∷ ls) body = ck_blob body line_id (line_records no_buf (l ∷ ls)).bytes
