-- ===== src/Romgen/Rom/Store.antt =====
-- The store of one byte: the shape of the two arrays is kept, and the image is seen as a partial
-- map from offsets to bytes.
use sdcc.Common.{
  ℕ, suc, ◌+◌, ◌-◌, ◌/◌, ◌≤◌, ◌<◌, ◌≡◌, ◌≢◌, refl, Bool, true, Option, none, some, arith, leb, ◌==◌,
  if◌then◌else◌, u8, get_or, length, ◌∙◌, length-append-replicate, length-set,
  get_or-append-replicate, get_or-set, Bool-cases, inl, inr,
}
use Prim.Native.Nat.{max}
use sdcc.Romgen.Address.{cart_base, mapped}
use sdcc.Romgen.Result.{ok}
use sdcc.Romgen.Rom.{
  Rom, Block, img_block, wr_block, start, headroom, grown, ensure, write, place, mark_bank,
}

abbrev pub byte_at : Rom → ℕ → ℕ
byte_at r i = get_or r.img i 0xFF

abbrev pub mark_at : Rom → ℕ → ℕ
mark_at r i = get_or r.wr i 0

-- What the program defines at an offset of the image.
abbrev pub contents : Rom → ℕ → Option ℕ
contents r i = if mark_at r i == 0 then none else some (byte_at r i)

pub record IsValid (r : Rom) : Type 0 where
  pub img_cap : length r.img ≡ r.cap
  pub wr_cap : length r.wr ≡ r.cap
  pub size_cap : r.size ≤ r.cap
  pub blank : (i : ℕ) → mark_at r i ≡ 0 → byte_at r i ≡ 0xFF
  pub inside : (i : ℕ) → mark_at r i ≢ 0 → i < r.size
  pub tight : (i : ℕ) → suc i ≡ r.size → mark_at r i ≢ 0

pub start-IsValid : IsValid start
start-IsValid = record {
  img_cap = refl;
  wr_cap = refl;
  size_cap = omega arith;
  blank = λ i h. refl;
  inside = λ i h. absurd (h refl);
  tight = λ i h. absurd (omega arith);
}

module _ (r : Rom) (v : IsValid r) where
  pub grown-IsValid : (ncap : ℕ) → r.cap ≤ ncap → IsValid (grown ncap r)
  grown-IsValid ncap h = record {
    img_cap = length-append-replicate r.img _ _ ∙ omega (arith, v.img_cap);
    wr_cap = length-append-replicate r.wr _ _ ∙ omega (arith, v.wr_cap);
    size_cap = omega (arith, v.size_cap);
    blank = λ i. rw (get_or-append-replicate r.img, get_or-append-replicate r.wr) (v.blank i);
    inside = λ i. rw (get_or-append-replicate r.wr) (v.inside i);
    tight = λ i. rw (get_or-append-replicate r.wr) (v.tight i);
  }

  pub write-IsValid : (phys val : ℕ) → phys - cart_base < r.cap → IsValid (write phys val r)
  unfolding write
  write-IsValid phys val h = record {
    img_cap = length-set r.img _ _ ∙ v.img_cap;
    wr_cap = length-set r.wr _ _ ∙ v.wr_cap;
    size_cap = ground (arith, v.size_cap);
    blank = λ i. ground (
      arith,
      v.blank i,
      v.img_cap,
      v.wr_cap,
      get_or-set r.img (phys - cart_base) i (u8 val) 0xFF,
      get_or-set r.wr (phys - cart_base) i 1 0,
    );
    inside = λ i. ground (arith, v.inside i, v.wr_cap, get_or-set r.wr (phys - cart_base) i 1 0);
    tight = λ i. ground (arith, v.tight i, v.wr_cap, get_or-set r.wr (phys - cart_base) i 1 0);
  }

  contents-write :
      (phys val i : ℕ)
      → phys - cart_base < r.cap
      → contents (write phys val r) i
        ≡ (if phys - cart_base == i then some (u8 val) else contents r i)
  unfolding write
  contents-write phys val i h = ground (
    arith,
    v.img_cap,
    v.wr_cap,
    get_or-set r.img (phys - cart_base) i (u8 val) 0xFF,
    get_or-set r.wr (phys - cart_base) i 1 0,
  )

-- `realloc` grants whatever is asked for.
abbrev pub Grants : (Block → ℕ → Bool) → Type 0
Grants alloc = (b : Block) (n : ℕ) → alloc b n ≡ true

-- `r'` is `r` with room for offset `off`, and nothing else is seen to change.
pub record HasRoom (off : ℕ) (r r' : Rom) : Type 0 where
  pub valid : IsValid r'
  pub room : off < r'.cap
  pub same_contents : (i : ℕ) → contents r' i ≡ contents r i
  pub same_size : r'.size ≡ r.size
  pub same_hi : r'.hi ≡ r.hi
  pub same_banks : r'.bankhit ≡ r.bankhit

module _ (r : Rom) (v : IsValid r) (off : ℕ) where
  grown-HasRoom : r.cap ≤ off → HasRoom off r (grown (headroom off) r)
  grown-HasRoom h = record {
    valid = grown-IsValid r v (headroom off) (omega arith);
    room = omega arith;
    same_contents = λ i. rw (get_or-append-replicate r.img, get_or-append-replicate r.wr);
    same_size = refl;
    same_hi = refl;
    same_banks = refl;
  }

  pub ensure-HasRoom :
      (alloc : Block → ℕ → Bool)
      → Grants alloc
      → (r' : Rom) × (ensure alloc off r ≡ ok r') × HasRoom off r r'
  unfolding ensure
  ensure-HasRoom alloc g = elim (Bool-cases (leb r.cap off)) [
    | inl small ↦ (
      grown (headroom off) r,
      rw (small, g img_block (headroom off), g wr_block (headroom off)),
      grown-HasRoom (ground arith),
    )
    | inr fits ↦ (
      r,
      rw fits,
      record {
        valid = v;
        room = ground arith;
        same_contents = λ i. refl;
        same_size = refl;
        same_hi = refl;
        same_banks = refl;
      },
    )
  ]

-- The offset of `phys` now holds `val`; all else is as it was.
pub record Stored (phys val : ℕ) (r r' : Rom) : Type 0 where
  pub valid : IsValid r'
  pub new_contents :
      (i : ℕ) → contents r' i ≡ (if phys - cart_base == i then some (u8 val) else contents r i)
  pub new_size : r'.size ≡ max r.size (phys - cart_base + 1)
  pub same_hi : r'.hi ≡ r.hi
  pub new_banks : r'.bankhit ≡ mark_bank (phys / 0x8000) r.bankhit

write-Stored :
    (phys val : ℕ) (r r' : Rom)
    → HasRoom (phys - cart_base) r r'
    → Stored phys val r (write phys val r')
write-Stored phys val r r' h = record {
  valid = write-IsValid r' h.valid phys val h.room;
  new_contents = λ i. contents-write r' h.valid phys val i h.room ∙ rw (h.same_contents i);
  new_size = unfold write in ground (arith, h.same_size);
  same_hi = unfold write in h.same_hi;
  new_banks = unfold write in rw h.same_banks;
}

-- With memory granted, the byte at a mapped address is stored in a valid image: its offset alone
-- changes, the size grows to cover it, its bank is marked, and the image stays valid.
pub place-Stored :
    (alloc : Block → ℕ → Bool) (a val phys : ℕ) (r : Rom)
    → Grants alloc
    → IsValid r
    → (r' : Rom) × (place alloc a val (mapped phys) r ≡ ok r') × Stored phys val r r'
unfolding place
place-Stored alloc a val phys r g v =
    let (r', e, room) = ensure-HasRoom r v (phys - cart_base) alloc g in
    (write phys val r', rw e, write-Stored phys val r r' room)
