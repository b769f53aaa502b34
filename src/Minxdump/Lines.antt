-- ===== src/Minxdump/Lines.antt =====
-- tools/minxdump.c: the checks of a LINE chunk. The failures of a file are counted; what is printed is
-- left out.
pub mod Passes
use sdcc.Common.{
  ℕ, zero, suc, ◌+◌, ◌-◌, ◌/◌, ◌%◌, ◌^◌, Bool, not, ◌&&◌, Option, none, some, ltb, leb, ◌==◌,
  if◌then◌else◌, u32,
}
use sdcc.Minxdump.Reader.{File, rle32}

abbrev no_ref : ℕ
no_ref = 0xFFFFFFFF

-- `file_name` fails for an ordinal that no FILE chunk has.
abbrev pub bad_file : ℕ → ℕ → Bool
bad_file n_files id = not (id == no_ref) && leb n_files id

abbrev count_if : Bool → ℕ
count_if b = if b then 1 else 0

abbrev plus : ℕ → Option ℕ → Option ℕ
plus n none = none
plus n (some m) = some (n + m)

-- The loop over the records, on fuel; none if it runs out.
unfoldable pub line_rows : ℕ → File → ℕ → ℕ → ℕ → ℕ → ℕ → Option ℕ
line_rows zero file n_files pay sz r prev = none
line_rows (suc fuel) file n_files pay sz r prev =
    let phys = rle32 file (pay + r) in
    let more = line_rows fuel file n_files pay sz (u32 (r + 16)) phys in
    let bad = count_if (ltb phys prev) + count_if (bad_file n_files (rle32 file (pay + r + 4))) in
    if leb (u32 (r + 16)) sz then plus bad more else some 0

unfoldable pub line_failures : File → ℕ → ℕ → ℕ → Option ℕ
unfolding line_rows
line_failures file n_files pay sz =
    plus (count_if (not (sz % 16 == 0))) (line_rows (suc (sz / 16)) file n_files pay sz 0 0)
