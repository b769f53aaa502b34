-- ===== src/Minxdump/Lines/Passes.antt =====
-- minxdump finds nothing wrong with the line table that romgen writes.
use sdcc.Common.{
  ℕ, zero, suc, ◌+◌, ◌*◌, ◌/◌, ◌%◌, ◌^◌, ◌≤◌, ◌<◌, ◌≡◌, refl, true, false, List, [], ◌∷◌, ◌++◌,
  some, ltb, leb, ◌==◌, length, length-append, append_assoc, u32, arith,
}
use sdcc.Romgen.Buffer.{Buf, le32}
use sdcc.Romgen.Chunk.Frame.{frame, IsAligned, padding}
use sdcc.Romgen.Lines.{LineRec, below, line_cmp, line_id, line_table, put_lines}
use sdcc.Romgen.Lines.Bytes.{row, line_bytes, put_lines-frame}
use sdcc.Romgen.Lines.Sorted.{IsStrict, Sorts, line_table-IsStrict}
use sdcc.Minxdump.Reader.{rle32}
use sdcc.Minxdump.RoundTrip.{rle32-le32}
use sdcc.Minxdump.Lines.{bad_file, line_rows, line_failures}

-- The fields are words, and the file has a name.
abbrev pub IsWritable : ℕ → LineRec → Type 0
IsWritable n_files l = (l.phys < 2 ^ 32) × (l.file < 2 ^ 32) × (bad_file n_files l.file ≡ false)

abbrev pub AllWritable : ℕ → List LineRec → Type 0
AllWritable n_files [] = Unit
AllWritable n_files (l ∷ ls) = IsWritable n_files l × AllWritable n_files ls

abbrev IsFrom : ℕ → List LineRec → Type 0
IsFrom prev [] = Unit
IsFrom prev (l ∷ ls) = (prev ≤ l.phys) × IsFrom l.phys ls

below-phys : (x y : LineRec) → line_cmp x y ≡ below → x.phys ≤ y.phys
below-phys x y h = ground arith

IsStrict-IsFrom : (l : LineRec) (ls : List LineRec) → IsStrict (l ∷ ls) → IsFrom l.phys ls
IsStrict-IsFrom l [] h = tt
IsStrict-IsFrom l (m ∷ ls) (h, hs) = (below-phys l m h, IsStrict-IsFrom m ls hs)

-- The fields that are read from a row.
row_phys :
    (pre rest : List ℕ) (l : LineRec) (p : ℕ)
    → l.phys < 2 ^ 32
    → p ≡ length pre
    → rle32 (pre ++ (row l ++ rest)) p ≡ l.phys
row_phys pre rest l p h e =
    rw (append_assoc (le32 l.phys) (le32 l.file ++ (le32 l.line ++ le32 l.scope)) rest)
      (rle32-le32 pre _ p l.phys h e)

row_file :
    (pre rest : List ℕ) (l : LineRec) (p : ℕ)
    → l.file < 2 ^ 32
    → p ≡ length pre + 4
    → rle32 (pre ++ (row l ++ rest)) p ≡ l.file
row_file pre rest l p h e =
    rw (← append_assoc pre (le32 l.phys) (le32 l.file ++ ((le32 l.line ++ le32 l.scope) ++ rest))) (
      rle32-le32 (pre ++ le32 l.phys) ((le32 l.line ++ le32 l.scope) ++ rest) p l.file h
        (omega (arith, length-append pre (le32 l.phys))))

line_rows-passes :
    (ls : List LineRec) (fuel n_files pay r prev : ℕ) (pre rest : List ℕ)
    → length ls < fuel
    → length pre ≡ pay + r
    → r + 16 * length ls + 16 < 2 ^ 32
    → IsFrom prev ls
    → AllWritable n_files ls
    → line_rows fuel (pre ++ (line_bytes ls ++ rest)) n_files pay (r + 16 * length ls) r prev
      ≡ some 0
unfolding line_rows
line_rows-passes ls zero n_files pay r prev pre rest f e fits from ok = absurd (omega arith)
line_rows-passes [] (suc fuel) n_files pay r prev pre rest f e fits from ok =
    let past : leb (u32 (r + 16)) (r + 16 * 0) ≡ false = ground arith in rw (line_rows, past)
line_rows-passes (l ∷ ls) (suc fuel) n_files pay r prev pre rest f e fits (le, from)
      ((hp, hf, named), ok) =
    let file = pre ++ (row l ++ (line_bytes ls ++ rest)) in
    let inside : leb (u32 (r + 16)) (r + 16 * suc (length ls)) ≡ true = ground arith in
    let next : u32 (r + 16) ≡ r + 16 = omega arith in
    let size : r + 16 * suc (length ls) ≡ r + 16 + 16 * length ls = omega arith in
    let phys : rle32 file (pay + r) ≡ l.phys =
      row_phys pre (line_bytes ls ++ rest) l (pay + r) hp (omega arith) in
    let name : rle32 file (pay + r + 4) ≡ l.file =
      row_file pre (line_bytes ls ++ rest) l (pay + r + 4) hf (omega arith) in
    let ordered : ltb l.phys prev ≡ false = ground arith in
    let ih : line_rows fuel file n_files pay (r + 16 + 16 * length ls) (r + 16) l.phys ≡ some 0 =
      rw (append_assoc pre (row l) (line_bytes ls ++ rest)) at (
        line_rows-passes ls fuel n_files pay (r + 16) l.phys (pre ++ row l) rest (omega arith)
          (omega (arith, length-append pre (row l))) (omega arith) from ok) in
    rw (line_rows, inside, next, size, phys, name, ordered, named, ih) refl

-- From its first record on, a table is in order.
line_bytes-passes :
    (l : LineRec) (ls : List LineRec) (n_files pay size : ℕ) (pre rest : List ℕ)
    → pay ≡ length pre
    → size ≡ 16 * suc (length ls)
    → size + 16 < 2 ^ 32
    → IsStrict (l ∷ ls)
    → AllWritable n_files (l ∷ ls)
    → line_failures (pre ++ (line_bytes (l ∷ ls) ++ rest)) n_files pay size ≡ some 0
unfolding line_failures
line_bytes-passes l ls n_files pay size pre rest e n fits strict ok =
    let whole : size % 16 == 0 ≡ true = ground arith in
    let rounds : size / 16 ≡ suc (length ls) = omega arith in
    let all : size ≡ 0 + 16 * suc (length ls) = omega arith in
    let rows =
      line_rows-passes (l ∷ ls) (suc (suc (length ls))) n_files pay 0 0 pre rest (omega arith)
        (omega arith) (omega arith) (omega arith, IsStrict-IsFrom l ls strict) ok in
    rw (line_failures, whole, rounds, all, rows) refl

-- The line table that romgen sorts, cleans and writes into a LINE chunk passes the checks of minxdump,
-- its size, its order and its file ordinals: the fields are words, the files have names, and the
-- container stays below 4 GB.
pub line_table_passes :
    (qsort : List LineRec → List LineRec) (lines : List LineRec) (l : LineRec) (ls : List LineRec)
    (n_files : ℕ) (head rest : List ℕ) (body : Buf)
    → Sorts qsort
    → line_table qsort lines ≡ l ∷ ls
    → AllWritable n_files (l ∷ ls)
    → IsAligned body.bytes
    → length body.bytes + 8 + 16 * length (l ∷ ls) + 16 < 2 ^ 32
    → line_failures
        (head ++ ((put_lines (line_table qsort lines) body).bytes ++ rest))
        n_files
        (length head + length body.bytes + 8)
        (16 * length (l ∷ ls))
      ≡ some 0
line_table_passes qsort lines l ls n_files head rest body sorts e ok aligned fits =
    let strict = rw e at (line_table-IsStrict qsort lines sorts).0 in
    let bytes = line_bytes (l ∷ ls) in
    let pre = ((head ++ body.bytes) ++ line_id) ++ le32 (length bytes) in
    let behind = padding (length bytes) ++ rest in
    let framed = put_lines-frame l ls body aligned (omega arith) in
    let regrouped : head ++ ((body.bytes ++ frame line_id bytes) ++ rest)
        ≡ pre ++ (bytes ++ behind) =
      simp append_assoc in
    rw (e, framed, regrouped)
      (line_bytes-passes l ls n_files (length head + length body.bytes + 8) (16 * length (l ∷ ls))
        pre behind
        (omega (
          arith,
          length-append ((head ++ body.bytes) ++ line_id) (le32 (length bytes)),
          length-append (head ++ body.bytes) line_id,
          length-append head body.bytes,
        ))
        refl (omega arith) strict ok)
