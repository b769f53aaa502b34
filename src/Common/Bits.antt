-- ===== src/Common/Bits.antt =====
-- `bit_or` and `bit_xor` at variables: the law of the lowest digit, and disjoint fields.
use Prim.Native.Nat.{
  ℕ, zero, suc, ◌+◌, ◌*◌, ◌/◌, ◌%◌, ◌^◌, ◌≤◌, ◌<◌, max, bit_or, digits, bit_or-bitwise,
}
use mathlib.Core.Path.{◌≡◌, refl, ◌∙◌, ap}
use native.Mathlib.Nat.{pow-suc}
use native.Mathlib.Omega.{arith}

-- Any two amounts of fuel that cover the number give the same digits, for `bit_or`'s own step.
or_digits_stable :
    (n m : ℕ) (a b : ℕ) → a ≤ n → a ≤ m → digits (λ y. y) max n a b ≡ digits (λ y. y) max m a b
or_digits_stable n m zero b p q = at_zero n m
  where
    at_zero : (n m : ℕ) → digits (λ y. y) max n 0 b ≡ digits (λ y. y) max m 0 b
    at_zero zero zero = refl
    at_zero zero (suc m) = refl
    at_zero (suc n) zero = refl
    at_zero (suc n) (suc m) = refl
or_digits_stable zero m (suc a) b p q = absurd (omega arith)
or_digits_stable (suc n) zero (suc a) b p q = absurd (omega arith)
or_digits_stable (suc n) (suc m) (suc a) b p q =
    ap (λ t. t * 2 + max (suc a % 2) (b % 2))
      (or_digits_stable n m (suc a / 2) (b / 2) (omega arith) (omega arith))

pub bit_or_step : (x y : ℕ) → bit_or x y ≡ bit_or (x / 2) (y / 2) * 2 + max (x % 2) (y % 2)
bit_or_step zero y = omega (arith, bit_or-bitwise 0 y, bit_or-bitwise 0 (y / 2))
bit_or_step (suc x) y =
    bit_or-bitwise (suc x) y
    ∙ ap (λ t. t * 2 + max (suc x % 2) (y % 2))
        (or_digits_stable x (suc x / 2) (suc x / 2) (y / 2) (omega arith) (omega arith))
    ∙ omega (arith, bit_or-bitwise (suc x / 2) (y / 2))

pub zero-bit_or : (b : ℕ) → bit_or 0 b ≡ b
zero-bit_or b = bit_or-bitwise 0 b

bit_or-zero_below : (n a : ℕ) → a ≤ n → bit_or a 0 ≡ a
bit_or-zero_below zero zero h = refl
bit_or-zero_below zero (suc a) h = absurd (omega arith)
bit_or-zero_below (suc n) zero h = refl
bit_or-zero_below (suc n) (suc a) h =
    omega (arith, bit_or_step (suc a) 0, bit_or-zero_below n (suc a / 2) (omega arith))

pub bit_or-zero : (a : ℕ) → bit_or a 0 ≡ a
bit_or-zero a = bit_or-zero_below a a (omega arith)

-- A field above `k` bits, and one within them, in either order.
module _ (hi k : ℕ) where
  double : hi * 2 ^ suc k ≡ 2 * (hi * 2 ^ k)
  double = omega (arith, ap (λ (t : ℕ). hi * t) (pow-suc 2 k))

  halved : hi * 2 ^ suc k / 2 ≡ hi * 2 ^ k
  halved = omega (arith, double)

  even : hi * 2 ^ suc k % 2 ≡ 0
  even = omega (arith, double)

pub bit_or_high_low : (k hi lo : ℕ) → lo < 2 ^ k → bit_or (hi * 2 ^ k) lo ≡ hi * 2 ^ k + lo
bit_or_high_low zero hi zero h = omega (arith, bit_or-zero (hi * 2 ^ 0))
bit_or_high_low zero hi (suc lo) h = absurd (omega arith)
bit_or_high_low (suc k) hi lo h =
    bit_or_step (hi * 2 ^ suc k) lo
    ∙ rw (halved hi k, even hi k)
        (omega (arith, double hi k, bit_or_high_low k hi (lo / 2) (omega (arith, pow-suc 2 k))))

pub bit_or_low_high : (k lo hi : ℕ) → lo < 2 ^ k → bit_or lo (hi * 2 ^ k) ≡ lo + hi * 2 ^ k
bit_or_low_high zero zero hi h = omega (arith, zero-bit_or (hi * 2 ^ 0))
bit_or_low_high zero (suc lo) hi h = absurd (omega arith)
bit_or_low_high (suc k) lo hi h =
    bit_or_step lo (hi * 2 ^ suc k)
    ∙ rw (halved hi k, even hi k)
        (omega (arith, double hi k, bit_or_low_high k (lo / 2) hi (omega (arith, pow-suc 2 k))))
