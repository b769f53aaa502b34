-- ===== src/As88/Expr.antt =====
-- sdas/as88/s1c88mch.c, `mchpcr`, and what the sources of an emitted field stand for.
use sdcc.Common.{
  ℕ, ◌+◌, ◌≡◌, ◌≢◌, refl, Bool, true, false, ◌&&◌, ◌==◌, if◌then◌else◌, u32, arith, Bool-cases, inl,
  inr,
}
use sdcc.As88.Emit.{Source, e1, e2, based, past}

-- `e_base`: NULL, an area (`e_ap`), or a symbol (`e_sp`, an index into `sym`).
pub data Base : Type 0 where
  null : Base
  area symbol : ℕ → Base

pub record Expr : Type 0 where
  pub e_flag : ℕ
  pub e_base : Base
  pub e_addr : ℕ

abbrev is_null : Base → Bool
is_null null = true
is_null _ = false

-- An absolute target is put on the symbol `.__.ABS.`; the answer is always 0.
unfoldable pub mchpcr : Expr → ℕ × Expr
mchpcr esp =
    if (esp.e_flag == 0) && is_null esp.e_base
    then (0, record esp { e_flag = 1; e_base = symbol 1 })
    else (0, esp)

-- The expression that a field is given, from the two operands.
unfoldable pub resolve : Source → Expr → Expr → Expr
resolve e1 x y = x
resolve e2 x y = y
resolve (based s) x y = (mchpcr (resolve s x y)).1
resolve (past s) x y = let e = resolve s x y in record e { e_addr = u32 (e.e_addr + 1) }

-- The linker sees a reference: a symbol, or an area.
abbrev pub IsRelocatable : Expr → Type 0
IsRelocatable e = (e.e_flag ≡ 0) → (e.e_base ≢ null)

-- An absolute expression: no symbol and no area.
abbrev pub IsAbsolute : Expr → Type 0
IsAbsolute e = (e.e_flag ≡ 0) × (e.e_base ≡ null)

-- The reference is to `.__.ABS.`, the second symbol of the assembler's table.
abbrev pub IsOnAbs : Expr → Type 0
IsOnAbs e = (e.e_flag ≡ 1) × (e.e_base ≡ symbol 1)

-- Nothing is resolved, the address stays, an absolute expression is put on `.__.ABS.`, and one in
-- which the linker saw a reference already is left as it was.
abbrev pub Relocated : Expr → ℕ × Expr → Type 0
Relocated e out =
    (out.0 ≡ 0)
    × (out.1.e_addr ≡ e.e_addr)
    × IsRelocatable out.1
    × (IsAbsolute e → IsOnAbs out.1)
    × (IsRelocatable e → out.1 ≡ e)

is_null-null : (x : Base) → is_null x ≡ true → x ≡ null
is_null-null null h = refl
is_null-null (area n) h = cc
is_null-null (symbol n) h = cc

-- `mchpcr` resolves no expression: it keeps the address, puts an absolute target on the symbol
-- `.__.ABS.`, and leaves every expression that has a symbol or an area, so that the linker sees each
-- relative branch.
pub mchpcr-Relocated : (e : Expr) → Relocated e (mchpcr e)
unfolding mchpcr
mchpcr-Relocated e = elim (Bool-cases (e.e_flag == 0)) [
  | inr flagged ↦ rw flagged (
    refl,
    refl,
    (λ z n. ground arith),
    (λ abs. absurd (let z = abs.0 in ground arith)),
    λ ok. refl,
  )
  | inl plain ↦ elim (Bool-cases (is_null e.e_base)) [
    | inl absolute ↦
        rw (plain, absolute)
          (
            refl,
            refl,
            (λ z n. cc),
            (λ abs. (refl, refl)),
            λ ok. absurd (ok (ground arith) (is_null-null e.e_base absolute)),
          )
    | inr seen ↦
        rw (plain, seen)
          (
            refl,
            refl,
            (λ z n. let w : is_null null ≡ false = rw n at seen in cc),
            (λ abs. let w : is_null null ≡ false = rw abs.1 at seen in cc),
            λ ok. refl,
          )
  ]
]
