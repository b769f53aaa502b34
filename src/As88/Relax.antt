-- ===== src/As88/Relax.antt =====
-- sdas/as88/s1c88mch.c: the bit table in which pass 1 records whether a relaxing branch is long, and
-- from which pass 2 replays it.
pub mod Steps
pub mod Replay
use sdcc.Common.{
  ℕ, zero, suc, ◌*◌, ◌%◌, ◌^◌, List, [], ◌∷◌, leb, ◌==◌, if◌then◌else◌, get_or, set, replicate, u32,
  bit_and, bit_or,
}

-- The words of the table.
abbrev pub nb : ℕ
nb = 512

-- `bb`, the index in it to which `bp` points, and `bm`.
pub record BitTable : Type 0 where
  pub bb : List ℕ
  pub bp : ℕ
  pub bm : ℕ

-- The table as C sets it before main; minit sets the null pointer.
abbrev pub fresh : BitTable
fresh = record { bb = replicate nb 0; bp = 0; bm = 0 }

abbrev pub advance : BitTable → BitTable
advance t =
    let bm = u32 (t.bm * 2) in
    if bm == 0 then record t { bp = suc t.bp; bm = 1 } else record t { bm = bm }

-- The table, and the answer.
unfoldable pub setbit : BitTable → ℕ → BitTable × ℕ
setbit t b =
    let marked = record t { bb = set t.bb t.bp (bit_or (get_or t.bb t.bp 0) t.bm) } in
    if leb nb t.bp then (t, 1) else (advance (if b == 0 then t else marked), b)

unfoldable pub getbit : BitTable → BitTable × ℕ
getbit t =
    let f = bit_and (get_or t.bb t.bp 0) t.bm in
    if leb nb t.bp then (t, 1) else (advance t, if f == 0 then 0 else 1)

-- The part of `minit` that is about the table, whose bits stay.
unfoldable pub minit : BitTable → BitTable
minit t = record t { bp = 0; bm = 1 }

-- The choice for a branch, 1 for long: `b` is what pass 1 computes, and no other pass looks at it. Pass 1
-- does not look at what setbit answers.
abbrev choose : ℕ → BitTable → ℕ → BitTable × ℕ
choose zero t b = (t, 1)
choose (suc zero) t b = ((setbit t b).0, b)
choose (suc (suc pass)) t b = getbit t

-- The choices for the branches of a pass, in their order.
unfoldable pub choices : ℕ → BitTable → List ℕ → BitTable × List ℕ
choices pass t [] = (t, [])
choices pass t (b ∷ bs) =
    let (t', long) = choose pass t b in
    let (last, longs) = choices pass t' bs in (last, long ∷ longs)
