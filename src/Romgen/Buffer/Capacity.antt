-- ===== src/Romgen/Buffer/Capacity.antt =====
-- Writes into a `buf` stay inside the allocated block.
use sdcc.Common.{
  ℕ, zero, suc, ◌+◌, ◌*◌, ◌/◌, ◌≤◌, List, arith, ◌==◌, if◌then◌else◌, length, length-append,
}
use sdcc.Romgen.Buffer.{Buf, grow_cap, buf_put}

-- Each round adds 16 at least, so the fuel that `cap_for` gives lets the loop end by its test.
pub grow_cap-ge : (fuel need ncap : ℕ) → need ≤ ncap + fuel * 16 → need ≤ grow_cap fuel need ncap
unfolding grow_cap
grow_cap-ge zero need ncap h = omega arith
grow_cap-ge (suc fuel) need ncap h = ground (arith, grow_cap-ge fuel need (ncap + (ncap / 2 + 16)))

-- The block holds the bytes.
abbrev pub IsValid : Buf → Type 0
IsValid b = length b.bytes ≤ b.cap

-- After an append to a block that holds its bytes, the block holds the old bytes and the new ones, so the copy stays inside.
pub buf_put-IsValid : (b : Buf) (src : List ℕ) → IsValid b → IsValid (buf_put b src)
unfolding buf_put
buf_put-IsValid b src v =
    let need : ℕ = length b.bytes + length src in
    ground (
      arith,
      length-append b.bytes src,
      grow_cap-ge (length b.bytes + length src) (length b.bytes + length src)
          (if b.cap == 0 then 256 else b.cap),
    )
