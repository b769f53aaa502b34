-- ===== src/Romgen/Hex.antt =====
-- tools/romgen.c, `hexbyte`: two hexadecimal digits of a record as a byte.
use sdcc.Common.{
  ℕ, ◌+◌, ◌-◌, ◌*◌, ◌<◌, ◌≡◌, refl, Bool, ◌&&◌, Option, none, some, List, arith, leb, ltb,
  if◌then◌else◌, get_or,
}

-- A line as `fgets` leaves it; what lies behind its end reads as the terminator. A record is
-- refused at its terminator, before anything behind it counts.
abbrev pub Line : Type 0
Line = List ℕ

abbrev pub char_at : Line → ℕ → ℕ
char_at line i = get_or line i 0

abbrev within : ℕ → ℕ → ℕ → Bool
within lo hi c = leb lo c && leb c hi

-- `none` is the -1 of the conditional chain.
unfoldable pub nibble : ℕ → Option ℕ
nibble c =
    if within b'0' b'9' c
    then some (c - b'0')
    else if within b'a' b'f' c
    then some (c - b'a' + 10)
    else if within b'A' b'F' c
    then some (c - b'A' + 10)
    else none

unfoldable pub join_nibbles : Option ℕ → Option ℕ → Option ℕ
join_nibbles none lo = none
join_nibbles (some hi) none = none
join_nibbles (some hi) (some lo) = some (hi * 16 + lo)

unfoldable pub hexbyte : Line → ℕ → Option ℕ
unfolding join_nibbles
hexbyte line p = join_nibbles (nibble (char_at line p)) (nibble (char_at line (p + 1)))

-- How the linker writes a digit.
abbrev pub digit : ℕ → ℕ
digit n = if ltb n 10 then b'0' + n else b'A' + (n - 10)

pub nibble-lt : (c : ℕ) {n : ℕ} → nibble c ≡ some n → n < 16
unfolding nibble
nibble-lt c h = ground arith

pub nibble-digit : (n : ℕ) → n < 16 → nibble (digit n) ≡ some n
unfolding nibble
nibble-digit n h = ground arith

pub hexbyte-lt : (line : Line) (p : ℕ) {v : ℕ} → hexbyte line p ≡ some v → v < 256
unfolding hexbyte
hexbyte-lt line p h =
    join (nibble (char_at line p)) (nibble (char_at line (p + 1))) (λ n. nibble-lt _)
      (λ n. nibble-lt _) h
  where
    join :
        (a b : Option ℕ) {v : ℕ}
        → ((n : ℕ) → a ≡ some n → n < 16)
        → ((n : ℕ) → b ≡ some n → n < 16)
        → join_nibbles a b ≡ some v
        → v < 256
    join none b f g e = cc
    join (some x) none f g e = cc
    join (some x) (some y) f g e = ground (arith, f x refl, g y refl)
