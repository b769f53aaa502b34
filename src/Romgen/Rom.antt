-- ===== src/Romgen/Rom.antt =====
-- tools/romgen.c, `main`: the arrays `img` and `wr`, and the store of one byte.
pub mod Store
pub mod Sample
use sdcc.Common.{
  ℕ, ◌+◌, ◌-◌, ◌/◌, ◌%◌, ◌^◌, Bool, true, false, ◌&&◌, List, [], ◌++◌, leb, ltb, ◌==◌,
  if◌then◌else◌, u8, set, replicate,
}
use sdcc.Romgen.Address.{cart_base, Phys, mapped, below_base, overflow}
use sdcc.Romgen.Result.{common_overflow, below_cart, out_of_memory, Result, ok, err, ◌>>=◌}

-- The locals of the loading loop. `img` and `wr` are the allocated blocks, `cap` their size;
-- `hi` is the extended linear address.
pub record Rom : Type 0 where
  pub img : List ℕ
  pub wr : List ℕ
  pub cap : ℕ
  pub size : ℕ
  pub hi : ℕ
  pub bankhit : ℕ → Bool

abbrev pub start : Rom
start = record { img = []; wr = []; cap = 0; size = 0; hi = 0; bankhit = λ _. false }

abbrev pub bank_limit : ℕ
bank_limit = 2048

-- The two blocks that `realloc` is asked for.
pub data Block : Type 0 where
  img_block wr_block : Block

-- The size asked for when offset `off` does not fit: one and a half times what is needed.
abbrev pub headroom : ℕ → ℕ
headroom off = off + 1 + (off + 1) / 2

-- The two blocks at `ncap` bytes: fresh ROM bytes are 0xFF and fresh marks 0.
abbrev pub grown : ℕ → Rom → Rom
grown ncap r = record r {
  img = r.img ++ replicate (ncap - r.cap) 0xFF;
  wr = r.wr ++ replicate (ncap - r.cap) 0;
  cap = ncap;
}

-- `alloc b n`: whether `realloc` grants `n` bytes for block `b`.
unfoldable pub ensure : (Block → ℕ → Bool) → ℕ → Rom → Result Rom
ensure alloc off r =
    if leb r.cap off
    then (if alloc img_block (headroom off) && alloc wr_block (headroom off)
        then ok (grown (headroom off) r)
        else err out_of_memory)
    else ok r

abbrev pub mark_bank : ℕ → (ℕ → Bool) → ℕ → Bool
mark_bank bank hit i = if ltb bank bank_limit then if i == bank then true else hit i else hit i

unfoldable pub write : ℕ → ℕ → Rom → Rom
write phys val r =
    let off = phys - cart_base in
    record r {
      img = set r.img off (u8 val);
      wr = set r.wr off 1;
      size = if ltb r.size (off + 1) then off + 1 else r.size;
      bankhit = mark_bank (phys / 0x8000) r.bankhit;
    }

-- The body of the loop over a record's bytes, behind the hexadecimal digits: `a` is the
-- linker address, and `p` what `phys_of` makes of it.
unfoldable pub place : (Block → ℕ → Bool) → ℕ → ℕ → Phys → Rom → Result Rom
place alloc a val (mapped phys) r = do
  r' ← ensure alloc (phys - cart_base) r
  ok (write phys val r')
place alloc a val (below_base phys) r = err (below_cart phys)
place alloc a val overflow r = err (common_overflow (a % 2 ^ 16))
