-- ===== src/As88/Relax/Steps.antt =====
-- One decision, at its place in the bit table.
use sdcc.Common.{
  ℕ, zero, suc, ◌*◌, ◌/◌, ◌%◌, ◌^◌, ◌≤◌, ◌<◌, ◌≡◌, ◌⊎◌, inl, inr, refl, ◌∙◌, ap, Bool-cases, true,
  false, List, leb, ◌==◌, if◌then◌else◌, get_or, set, u32, bit_and, bit_or, arith, length, digit,
  digit-bit_or, digit-lt, bit_and-pow, get_or-set, length-set,
}
use sdcc.As88.Relax.{nb, BitTable, advance, setbit, getbit}
use native.Mathlib.Nat.{pow-suc}

-- The places for decisions.
abbrev pub sites : ℕ
sites = 32 * nb

-- The bit of a place.
abbrev pub bit_at : List ℕ → ℕ → ℕ
bit_at bb n = digit (get_or bb (n / 32) 0) (n % 32)

-- The pointer and the mask stand at place `n`; the place behind the last is that behind the table.
abbrev pub StandsAt : ℕ → BitTable → Type 0
StandsAt n t = (length t.bb ≡ nb) × (t.bp ≡ n / 32) × (t.bm ≡ 2 ^ (n % 32))

power_le : (k m : ℕ) → k ≤ m → 2 ^ k ≤ 2 ^ m
power_le k zero h = let e : k ≡ 0 = omega arith in rw e (omega arith)
power_le k (suc m) h = elim (last k m h) [
  | inl below ↦ omega (arith, power_le k m below, pow-suc 2 m)
  | inr e ↦ rw e (omega arith)
]
  where
    last : (k m : ℕ) → k ≤ suc m → (k ≤ m) ⊎ (k ≡ suc m)
    last k m h = ground arith

-- A mask that does not leave the word is doubled, and is not 0.
low_power : (k : ℕ) → k < 31 → (u32 (2 ^ k * 2) ≡ 2 ^ suc k) × ((2 ^ suc k == 0) ≡ false)
low_power k h =
    let at_most = power_le k 30 (omega arith) in
    let at_least = power_le 0 k (omega arith) in
    let twice = pow-suc 2 k in
    let positive : 0 < 2 ^ suc k = omega (arith, twice, at_least) in
    (omega (arith, twice, at_most), ground arith)

advance-StandsAt : (n : ℕ) (t : BitTable) → StandsAt n t → StandsAt (suc n) (advance t)
advance-StandsAt n t (l, p, m) = elim (whole n) [
  | inl (e, q, r) ↦
      let (doubled, positive) = low_power (n % 32) e in rw (m, doubled, positive, q, r) (l, p, refl)
  | inr (e, q, r) ↦ rw (m, e, q, r) (l, ap suc p, refl)
]
  where
    whole :
        (n : ℕ)
        → ((n % 32 < 31) × (suc n / 32 ≡ n / 32) × (suc n % 32 ≡ suc (n % 32)))
          ⊎ ((n % 32 ≡ 31) × (suc n / 32 ≡ suc (n / 32)) × (suc n % 32 ≡ 0))
    whole n = ground arith

-- A mark at place `n` changes the bit of that place alone.
marked_bit :
    (bb : List ℕ) (n m : ℕ)
    → length bb ≡ nb
    → n < sites
    → bit_at (set bb (n / 32) (bit_or (get_or bb (n / 32) 0) (2 ^ (n % 32)))) m
      ≡ (if n == m then 1 else bit_at bb m)
marked_bit bb n m l inside =
    let w = bit_or (get_or bb (n / 32) 0) (2 ^ (n % 32)) in
    let written = get_or-set bb (n / 32) (m / 32) w 0 (omega arith) in
    let marked = digit-bit_or (get_or bb (n / 32) 0) (n % 32) (m % 32) in
    elim (apart n m) [
      | inl (inl (q, ne)) ↦ rw (written, q, ne) refl
      | inl (inr (q, r, ne)) ↦
          let same_word : (n / 32 == m / 32) ≡ true = ground arith in
          rw (written, same_word, marked, r, ne) (ap (λ i. digit (get_or bb i 0) (m % 32)) q)
      | inr e ↦
          let same_word : (n / 32 == m / 32) ≡ true = ground arith in
          let same_bit : (n % 32 == m % 32) ≡ true = ground arith in
          let same : (n == m) ≡ true = ground arith in
          rw (written, same_word, marked, same_bit, same) refl
    ]
  where
    apart :
        (n m : ℕ)
        → (((n / 32 == m / 32) ≡ false) × ((n == m) ≡ false)
            ⊎ ((n / 32 ≡ m / 32) × ((n % 32 == m % 32) ≡ false) × ((n == m) ≡ false)))
          ⊎ (n ≡ m)
    apart n m = ground arith

-- The bit that is read at place `n`.
read_bit :
    (bb : List ℕ) (n : ℕ)
    → (if bit_and (get_or bb (n / 32) 0) (2 ^ (n % 32)) == 0 then 0 else 1) ≡ bit_at bb n
read_bit bb n =
    let w = get_or bb (n / 32) 0 in
    let low = digit-lt w (n % 32) in
    let positive = power_le 0 (n % 32) (omega arith) in
    elim (zero_or_one (digit w (n % 32)) low) [
      | inl e ↦ rw (bit_and-pow w (n % 32), e) (ground arith)
      | inr e ↦ rw (bit_and-pow w (n % 32), e) (ground arith)
    ]
  where
    zero_or_one : (d : ℕ) → d < 2 → (d ≡ 0) ⊎ (d ≡ 1)
    zero_or_one d h = ground arith

advance-bb : (t : BitTable) → (advance t).bb ≡ t.bb
advance-bb t = elim (Bool-cases (u32 (t.bm * 2) == 0)) [ inl e ↦ rw e refl | inr e ↦ rw e refl ]

-- A recorded decision stands at its place, and the other places are as before.
pub setbit_inside :
    (n : ℕ) (t : BitTable) (b : ℕ)
    → b < 2
    → StandsAt n t
    → n < sites
    → bit_at t.bb n ≡ 0
    → StandsAt (suc n) (setbit t b).0
      × (bit_at (setbit t b).0.bb n ≡ b)
      × ((m : ℕ) → (n == m) ≡ false → bit_at (setbit t b).0.bb m ≡ bit_at t.bb m)
      × ((setbit t b).1 ≡ b)
unfolding setbit
setbit_inside n t zero h (l, p, m) inside clear =
    let within : leb nb t.bp ≡ false = ground arith in
    rw (setbit, within)
      (
        advance-StandsAt n t (l, p, m),
        ap (λ bb. bit_at bb n) (advance-bb t) ∙ clear,
        λ j e. ap (λ bb. bit_at bb j) (advance-bb t),
        refl,
      )
setbit_inside n t (suc zero) h (l, p, m) inside clear =
    let within : leb nb t.bp ≡ false = ground arith in
    let marked = record t { bb = set t.bb t.bp (bit_or (get_or t.bb t.bp 0) t.bm) } in
    let bits : (j : ℕ) → bit_at (advance marked).bb j ≡ (if n == j then 1 else bit_at t.bb j) =
      λ j. ap (λ bb. bit_at bb j) (advance-bb marked) ∙ rw (p, m) (marked_bit t.bb n j l inside) in
    let here : n == n ≡ true = ground arith in
    rw (setbit, within)
      (
        advance-StandsAt n marked
            (length-set t.bb t.bp (bit_or (get_or t.bb t.bp 0) t.bm) ∙ l, p, m),
        bits n ∙ rw here refl,
        λ j e. bits j ∙ rw e refl,
        refl,
      )
setbit_inside n t (suc (suc b)) h s inside clear = absurd (omega arith)

pub setbit_behind : (n : ℕ) (t : BitTable) (b : ℕ) → StandsAt n t → sites ≤ n → setbit t b ≡ (t, 1)
unfolding setbit
setbit_behind n t b (l, p, m) h =
    let behind : leb nb t.bp ≡ true = ground arith in rw (setbit, behind) refl

pub getbit_behind : (n : ℕ) (t : BitTable) → StandsAt n t → sites ≤ n → getbit t ≡ (t, 1)
unfolding getbit
getbit_behind n t (l, p, m) h =
    let behind : leb nb t.bp ≡ true = ground arith in rw (getbit, behind) refl

pub getbit_inside :
    (n : ℕ) (t : BitTable)
    → StandsAt n t
    → n < sites
    → StandsAt (suc n) (getbit t).0 × ((getbit t).0.bb ≡ t.bb) × ((getbit t).1 ≡ bit_at t.bb n)
unfolding getbit
getbit_inside n t (l, p, m) h =
    let inside : leb nb t.bp ≡ false = ground arith in
    rw (getbit, inside) (advance-StandsAt n t (l, p, m), advance-bb t, rw (p, m) (read_bit t.bb n))
