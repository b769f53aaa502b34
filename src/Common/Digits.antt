-- ===== src/Common/Digits.antt =====
-- A single binary digit of a number, and what `bit_or` and `bit_and` with a power of 2 do to it.
use Prim.Native.Nat.{
  ℕ, zero, suc, ◌+◌, ◌*◌, ◌/◌, ◌%◌, ◌^◌, ◌≤◌, ◌<◌, min, max, bit_or, bit_and, digits,
  bit_or-bitwise, bit_and-bitwise,
}
use mathlib.Core.Path.{◌≡◌, refl, ◌∙◌, ap}
use sdcc.Common.Tests.{if◌then◌else◌, ◌==◌}
use native.Mathlib.Nat.{pow-suc}
use native.Mathlib.Omega.{arith}

abbrev pub digit : ℕ → ℕ → ℕ
digit a zero = a % 2
digit a (suc k) = digit (a / 2) k

pub digit-zero : (k : ℕ) → digit 0 k ≡ 0
digit-zero zero = refl
digit-zero (suc k) = digit-zero k

pub digit-lt : (a k : ℕ) → digit a k < 2
digit-lt a zero = omega arith
digit-lt a (suc k) = digit-lt (a / 2) k

pow_half : (k : ℕ) → 2 ^ suc k / 2 ≡ 2 ^ k
pow_half k = omega (arith, pow-suc 2 k)

pow_even : (k : ℕ) → 2 ^ suc k % 2 ≡ 0
pow_even k = omega (arith, pow-suc 2 k)

and_digits_zero : (n a : ℕ) → digits (λ y. 0) min n a 0 ≡ 0
and_digits_zero zero a = refl
and_digits_zero (suc n) zero = refl
and_digits_zero (suc n) (suc a) = let ih = and_digits_zero n (suc a / 2) in ground arith

or_digits_zero : (n a : ℕ) → a ≤ n → digits (λ y. y) max n a 0 ≡ a
or_digits_zero zero zero h = refl
or_digits_zero zero (suc a) h = absurd (omega arith)
or_digits_zero (suc n) zero h = refl
or_digits_zero (suc n) (suc a) h =
    let ih = or_digits_zero n (suc a / 2) (omega arith) in omega arith

and_digits_pow : (n a k : ℕ) → a ≤ n → digits (λ y. 0) min n a (2 ^ k) ≡ digit a k * 2 ^ k
and_digits_pow zero zero k h = rw (digit-zero k) (omega arith)
and_digits_pow zero (suc a) k h = absurd (omega arith)
and_digits_pow (suc n) zero k h = rw (digit-zero k) (omega arith)
and_digits_pow (suc n) (suc a) zero h = let none_left = and_digits_zero n (suc a / 2) in omega arith
and_digits_pow (suc n) (suc a) (suc k) h =
    let ih = and_digits_pow n (suc a / 2) k (omega arith) in
    let step : digit (suc a / 2) k * 2 ^ suc k ≡ digit (suc a / 2) k * 2 ^ k * 2 =
      omega (arith, ap (λ (t : ℕ). digit (suc a / 2) k * t) (pow-suc 2 k)) in
    rw (pow_half k, pow_even k, ih) (omega (arith, step))

digit-pow : (k j : ℕ) → digit (2 ^ k) j ≡ (if k == j then 1 else 0)
digit-pow zero zero = refl
digit-pow zero (suc j) = digit-zero j ∙ ground arith
digit-pow (suc k) zero = rw (pow_even k) (ground arith)
digit-pow (suc k) (suc j) = rw (pow_half k) (digit-pow k j ∙ ground arith)

or_digits_pow :
    (n a k j : ℕ)
    → a ≤ n
    → digit (digits (λ y. y) max n a (2 ^ k)) j ≡ (if k == j then 1 else digit a j)
or_digits_pow zero zero k j h = rw (digit-zero j) (digit-pow k j)
or_digits_pow zero (suc a) k j h = absurd (omega arith)
or_digits_pow (suc n) zero k j h = rw (digit-zero j) (digit-pow k j)
or_digits_pow (suc n) (suc a) zero zero h = ground arith
or_digits_pow (suc n) (suc a) zero (suc j) h =
    let all_left = or_digits_zero n (suc a / 2) (omega arith) in
    let rest = digits (λ y. y) max n (suc a / 2) 0 in
    let half : (rest * 2 + max (suc a % 2) 1) / 2 ≡ suc a / 2 = omega arith in
    ap (λ t. digit t j) half ∙ ground arith
or_digits_pow (suc n) (suc a) (suc k) zero h = rw (pow_half k, pow_even k) (ground arith)
or_digits_pow (suc n) (suc a) (suc k) (suc j) h =
    let ih = or_digits_pow n (suc a / 2) k j (omega arith) in
    let rest = digits (λ y. y) max n (suc a / 2) (2 ^ k) in
    let half : (rest * 2 + max (suc a % 2) 0) / 2 ≡ rest = omega arith in
    rw (pow_half k, pow_even k) (ap (λ t. digit t j) half ∙ ih ∙ ground arith)

pub digit-bit_or : (a k j : ℕ) → digit (bit_or a (2 ^ k)) j ≡ (if k == j then 1 else digit a j)
digit-bit_or a k j = rw (bit_or-bitwise a (2 ^ k)) (or_digits_pow a a k j (omega arith))

pub bit_and-pow : (a k : ℕ) → bit_and a (2 ^ k) ≡ digit a k * 2 ^ k
bit_and-pow a k = bit_and-bitwise a (2 ^ k) ∙ and_digits_pow a a k (omega arith)
