-- ===== src/Peep/Effects/Sweep.antt =====
-- A test of all instructions that take no branch target, by computation.
use sdcc.Common.{◌≡◌, refl, Bool, true, false, not, ◌&&◌, ◌||◌, arith}
use sdcc.As88.Machine.{Inherent, Unary, Binary, Instr, inherent, unary, binary, machine}
use sdcc.As88.Emit.{is_error}
use sdcc.As88.Manual.Same.{operands}
use sdcc.As88.Manual.Conforms.{every, for_all}
use sdcc.Peep.Print.{Spelling, small, zeros, ones, symbolic}
use sdcc.Peep.Effects.{
  Register, byte_a, byte_b, byte_l, byte_h, index_x, index_y, stack_p, Flag, zero_f, carry_f,
  negative_f, overflow_f,
}

abbrev pub agree : Bool → Bool → Bool
agree true b = b
agree false b = not b

pub agree-eq : (a b : Bool) → agree a b ≡ true → a ≡ b
agree-eq true b h = cc
agree-eq false true h = cc
agree-eq false false h = refl

abbrev pub on_registers : (Register → Bool) → Bool
on_registers p = p byte_a && p byte_b && p byte_l && p byte_h && p index_x && p index_y && p stack_p

pub on_registers-at : (p : Register → Bool) → on_registers p ≡ true → (r : Register) → p r ≡ true
on_registers-at p h byte_a = ground arith
on_registers-at p h byte_b = ground arith
on_registers-at p h byte_l = ground arith
on_registers-at p h byte_h = ground arith
on_registers-at p h index_x = ground arith
on_registers-at p h index_y = ground arith
on_registers-at p h stack_p = ground arith

abbrev pub on_flags : (Flag → Bool) → Bool
on_flags p = p zero_f && p carry_f && p negative_f && p overflow_f

pub on_flags-at : (p : Flag → Bool) → on_flags p ≡ true → (f : Flag) → p f ≡ true
on_flags-at p h zero_f = ground arith
on_flags-at p h carry_f = ground arith
on_flags-at p h negative_f = ground arith
on_flags-at p h overflow_f = ground arith

-- The test holds of an instruction, or the assembler refuses it.
abbrev pub refused_or : (Instr → Bool) → Instr → Bool
refused_or p i = is_error (machine i) || p i

pub refused_or-taken :
    (p : Instr → Bool) (i : Instr)
    → refused_or p i ≡ true
    → is_error (machine i) ≡ false
    → p i ≡ true
refused_or-taken p i h taken = ground arith

abbrev pub on_spellings : (Spelling → Bool) → Bool
on_spellings p = p small && p zeros && p ones && p symbolic

pub on_spellings-at : (p : Spelling → Bool) → on_spellings p ≡ true → (w : Spelling) → p w ≡ true
on_spellings-at p h small = ground arith
on_spellings-at p h zeros = ground arith
on_spellings-at p h ones = ground arith
on_spellings-at p h symbolic = ground arith

abbrev pub InherentTest : (Spelling → Instr → Bool) → Type 0
InherentTest p = (o : Inherent) → on_spellings (λ w. refused_or (p w) (inherent o)) ≡ true

abbrev pub UnaryTest : (Spelling → Instr → Bool) → Type 0
UnaryTest p =
    (k : Unary) → on_spellings (λ w. every (λ d. refused_or (p w) (unary k d)) operands) ≡ true

abbrev pub BinaryTest : (Spelling → Instr → Bool) → Type 0
BinaryTest p =
    (k : Binary)
    → on_spellings
        (λ w. every (λ d. every (λ s. refused_or (p w) (binary k d s)) operands) operands)
      ≡ true

-- The three tests together are a test of every instruction in every spelling.
pub all_instrs :
    (p : Spelling → Instr → Bool)
    → InherentTest p
    → UnaryTest p
    → BinaryTest p
    → (w : Spelling) (i : Instr) → refused_or (p w) i ≡ true
all_instrs p h u b w (inherent o) = on_spellings-at (λ w. refused_or (p w) (inherent o)) (h o) w
all_instrs p h u b w (unary k d) =
    for_all (λ d. refused_or (p w) (unary k d))
      (on_spellings-at (λ w. every (λ d. refused_or (p w) (unary k d)) operands) (u k) w) d
all_instrs p h u b w (binary k d s) =
    for_all (λ s. refused_or (p w) (binary k d s))
      (for_all (λ d. every (λ s. refused_or (p w) (binary k d s)) operands)
        (on_spellings-at
          (λ w. every (λ d. every (λ s. refused_or (p w) (binary k d s)) operands) operands) (b k)
          w)
        d)
      s
