-- ===== src/Romgen/Tests.antt =====
-- The theorems on tools/romgen.c at inputs that meet their hypotheses, and runs of the code.
use sdcc.Common.{
  ℕ, suc, ◌<◌, ◌≤◌, ◌≡◌, ◌↔◌, refl, Bool, true, false, List, [], ◌∷◌, ◌++◌, map, arith, length,
  take, inr, chars, str_eq,
}
use sdcc.Romgen.Address.{FarRange, is_far, mapped, overflow, phys_of, cart_base}
use sdcc.Romgen.Address.Banks.{code_address, phys_of-code_iff, phys_of-overflow}
use sdcc.Romgen.Buffer.{Buf, no_buf, buf_put, strtab_add, grow_cap}
use sdcc.Romgen.Buffer.Capacity
use sdcc.Romgen.Buffer.Words.{from, strtab_add_lem}
use sdcc.Romgen.Chunk.{ck_blob}
use sdcc.Romgen.Chunk.Blob.{ck_blob-frame}
use sdcc.Romgen.Chunk.Frame.{frame}
use sdcc.Romgen.Hex.{Line, hexbyte, nibble}
use sdcc.Romgen.Intern.Distinct.{IsInterned, tables-IsInterned}
use sdcc.Romgen.Intern.{TypeRec, same_type, type_intern, file_id}
use sdcc.Romgen.Lines.{LineRec, line_table, drop_same}
use sdcc.Romgen.Lines.Sample.{insertion_sort, insertion_sort-Sorts}
use sdcc.Romgen.Lines.Sorted.{IsStrict, has_place, line_table-IsStrict}
use sdcc.Romgen.Vars.{EmitVar, sort_vars}
use sdcc.Romgen.Vars.Sorted
use mathlib.Core.List.{Perm}
use sdcc.Romgen.Load.{
  flat, load, load_line, record_header, record_body, data_bytes, data_byte, set_ela,
}
use sdcc.Romgen.Load.Flat.{FlatAgrees, empty, flat-FlatAgrees}
use sdcc.Romgen.Load.Records.{
  HexRecord, note, ela, bytes, finish, print_record, All, IsWellFormed, exec,
}
use sdcc.Romgen.Result.{ok}
use sdcc.Romgen.Rom.{Rom, Block, write, place, ensure}
use sdcc.Romgen.Rom.Store.{Stored, place-Stored}
use sdcc.Romgen.Rom.Sample.{gapped, gapped-IsValid}
use sdcc.Romgen.Segments.{put_rom, rom_id, scan, run_end}
use sdcc.Romgen.Segments.Runs.{runs, Scanned, scan-Scanned}
use sdcc.Romgen.Segments.Written.{frames, put_rom-frame}

abbrev grants_all : Block → ℕ → Bool
grants_all b n = true

abbrev line_end : Line
line_end = b'5' ∷ b'A' ∷ b'\n' ∷ []

abbrev sample : List HexRecord
sample = note b'\n' [] ∷ bytes 0x2100 (1 ∷ 2 ∷ []) ∷ ela 0 ∷ bytes 0x2104 (0xAB ∷ []) ∷ finish ∷ []

sample-IsWellFormed : All IsWellFormed sample
sample-IsWellFormed = (refl, (omega arith, (omega arith, (omega arith, (tt, tt)))))

sample-flat :
    flat grants_all [] (map (print_record line_end) sample) ≡ ok (1 ∷ 2 ∷ 0xFF ∷ 0xFF ∷ 0xAB ∷ [])
unfolding flat load load_line record_header record_body data_bytes data_byte set_ela hexbyte nibble
    place ensure write phys_of is_far
sample-flat = refl

flat-FlatAgrees_example :
    FlatAgrees (flat grants_all [] (map (print_record line_end) sample)) (exec [] sample empty)
flat-FlatAgrees_example =
    flat-FlatAgrees grants_all [] line_end sample (λ b n. refl) sample-IsWellFormed

phys_of-code_iff_example :
    (phys_of [] 0x28005 ≡ mapped 0x10005) ↔ (cart_base ≤ 0x10005) × (0x28005 ≡ code_address 0x10005)
unfolding is_far
phys_of-code_iff_example =
    phys_of-code_iff [] 0x28005 0x10005 refl (omega arith, inr (omega arith, omega arith))

abbrev far_page : List FarRange
far_page = record { lo = 0x9000; hi = 0x9FFF } ∷ []

phys_of-overflow_example :
    (phys_of far_page 0xA000 ≡ overflow)
    ↔ (is_far far_page 0xA000 ≡ false) × (0x8000 ≤ 0xA000) × (0xA000 < 0x10000)
phys_of-overflow_example = phys_of-overflow far_page 0xA000

abbrev one_string : Buf
one_string = (strtab_add no_buf (b'a' ∷ b'b' ∷ [])).0

strtab_add_lem_example :
    (take 2 (from (strtab_add one_string (b'c' ∷ [])).0 (strtab_add one_string (b'c' ∷ [])).1)
      ≡ b'c' ∷ 0 ∷ [])
    × (take (length one_string.bytes) (strtab_add one_string (b'c' ∷ [])).0.bytes
        ≡ one_string.bytes)
unfolding strtab_add buf_put
strtab_add_lem_example = strtab_add_lem one_string (b'c' ∷ []) (omega arith)

buf_put-IsValid_example : Capacity.IsValid (buf_put one_string (1 ∷ 2 ∷ 3 ∷ []))
unfolding strtab_add buf_put grow_cap
buf_put-IsValid_example = Capacity.buf_put-IsValid one_string (1 ∷ 2 ∷ 3 ∷ []) (omega arith)

ck_blob-frame_example :
    (ck_blob no_buf rom_id (7 ∷ 8 ∷ 9 ∷ [])).bytes ≡ [] ++ frame rom_id (7 ∷ 8 ∷ 9 ∷ [])
ck_blob-frame_example = ck_blob-frame no_buf rom_id (7 ∷ 8 ∷ 9 ∷ []) refl refl (omega arith)

place-Stored_example :
    (r' : Rom) × (place grants_all 0x2101 9 (mapped 0x2101) gapped ≡ ok r')
    × Stored 0x2101 9 gapped r'
place-Stored_example = place-Stored grants_all 0x2101 9 0x2101 gapped (λ b n. refl) gapped-IsValid

put_rom-frame_example :
    ((put_rom gapped no_buf).0.bytes
      ≡ [] ++ frame rom_id (frames gapped (runs (suc gapped.size) gapped 0)))
    × ((put_rom gapped no_buf).1 ≡ length (runs (suc gapped.size) gapped 0))
unfolding runs scan write run_end
put_rom-frame_example = put_rom-frame gapped no_buf refl (omega arith)

scan-Scanned_example : Scanned gapped 0 (scan gapped 0)
scan-Scanned_example = scan-Scanned gapped 0

abbrev line_at : ℕ → ℕ → ℕ → LineRec
line_at phys line scope = record { phys = phys; file = 0; line = line; scope = scope }

abbrev three_lines : List LineRec
three_lines = line_at 0x2105 8 1 ∷ line_at 0x2100 7 0 ∷ line_at 0x2105 8 0 ∷ []

line_table-IsStrict_example :
    IsStrict (line_table insertion_sort three_lines)
    × ((z : LineRec)
        → has_place z (line_table insertion_sort three_lines) ≡ has_place z three_lines)
line_table-IsStrict_example = line_table-IsStrict insertion_sort three_lines insertion_sort-Sorts

three_lines_table :
    line_table insertion_sort three_lines ≡ line_at 0x2100 7 0 ∷ line_at 0x2105 8 1 ∷ []
unfolding line_table drop_same
three_lines_table = refl

abbrev a_char : TypeRec
a_char = record { kind_flags = 1; size = 1; target = 0xFFFFFFFF; extra = 0 }

abbrev an_int : TypeRec
an_int = record { kind_flags = 2; size = 2; target = 0xFFFFFFFF; extra = 0 }

tables-IsInterned_example :
    IsInterned same_type type_intern (a_char ∷ an_int ∷ []) an_int
    × IsInterned str_eq file_id (chars "main.c" ∷ []) (chars "irq.c")
tables-IsInterned_example =
    tables-IsInterned (a_char ∷ an_int ∷ []) an_int (chars "main.c" ∷ []) (chars "irq.c")
      (refl, (refl, tt)) (refl, tt)

abbrev var_of : ℕ → ℕ → EmitVar
var_of scope name = record {
  scope = scope;
  name = name;
  type = 0;
  levelblock = 0;
  loc_kind = 0;
  loc = 0;
  flags = 0;
}

abbrev three_vars : List EmitVar
three_vars = var_of 0xFFFFFFFF 1 ∷ var_of 2 9 ∷ var_of 2 5 ∷ []

sort_vars-IsSorted_example :
    Sorted.IsSorted (sort_vars three_vars) × Perm (sort_vars three_vars) three_vars
sort_vars-IsSorted_example = Sorted.sort_vars-IsSorted three_vars

three_vars_sorted : sort_vars three_vars ≡ var_of 2 5 ∷ var_of 2 9 ∷ var_of 0xFFFFFFFF 1 ∷ []
unfolding sort_vars
three_vars_sorted = refl
