-- ===== src/Romgen/Load/Bytes.antt =====
-- The bytes of one data record: the loop of tools/romgen.c over them refines their meaning.
use sdcc.Common.{
  ℕ, suc, ◌+◌, ◌*◌, ◌/◌, ◌%◌, ◌<◌, ◌≡◌, refl, sym, ◌∙◌, subst, Bool, List, [], ◌∷◌, ◌++◌, some,
  arith, length, get_or-append, append_assoc, length-append,
}
use sdcc.Romgen.Hex.{Line, digit, hexbyte, join_nibbles, nibble, nibble-digit}
use sdcc.Romgen.Address.{FarRange, Phys, mapped, below_base, overflow, phys_of}
use sdcc.Romgen.Load.{linker_address, data_byte, data_bytes}
use sdcc.Romgen.Load.Records.{print_bytes, All, Memory, exec_byte, exec_bytes}
use sdcc.Romgen.Rom.{Rom, Block, place}
use sdcc.Romgen.Rom.Store.{IsValid, contents, Grants, place-Stored}
use sdcc.Romgen.Result.{Result, ok, err, ◌>>=◌}

-- The arrays show this memory.
pub record Shows (r : Rom) (m : Memory) : Type 0 where
  pub valid : IsValid r
  pub same : (i : ℕ) → contents r i ≡ m.at i
  pub same_upper : r.hi ≡ m.upper

abbrev pub Agrees : Result Rom → Result Memory → Type 0
Agrees (ok r) (ok m) = Shows r m
Agrees (err e) (err e') = e ≡ e'
Agrees (ok r) (err e) = ⊥
Agrees (err e) (ok m) = ⊥

pub Agrees-bind :
    (x : Result Rom) (y : Result Memory) (f : Rom → Result Rom) (g : Memory → Result Memory)
    → Agrees x y
    → ((r : Rom) (m : Memory) → Shows r m → Agrees (f r) (g m))
    → Agrees (x >>= f) (y >>= g)
Agrees-bind (ok r) (ok m) f g h k = k r m h
Agrees-bind (err e) (err e') f g h k = h
Agrees-bind (ok r) (err e) f g h k = absurd h
Agrees-bind (err e) (ok m) f g h k = absurd h

two_digits :
    (v : ℕ) → v < 256 → join_nibbles (nibble (digit (v / 16))) (nibble (digit (v % 16))) ≡ some v
unfolding join_nibbles
two_digits v h =
    ground (arith, nibble-digit (v / 16) (omega arith), nibble-digit (v % 16) (omega arith))

-- The two digits behind a prefix of `p` characters.
pub hexbyte-print_bytes :
    (pre : Line) (v : ℕ) (rest : Line) (p : ℕ)
    → v < 256
    → p ≡ length pre
    → hexbyte (pre ++ print_bytes (v ∷ []) rest) p ≡ some v
unfolding hexbyte
hexbyte-print_bytes pre v rest p h e =
    rw
      (
        get_or-append pre (print_bytes (v ∷ []) rest) p 0 0 (omega arith),
        get_or-append pre (print_bytes (v ∷ []) rest) (p + 1) 1 0 (omega arith),
      )
      (two_digits v h)

print_bytes-append :
    (pre : Line) (v : ℕ) (vs : List ℕ) (tail : Line)
    → pre ++ print_bytes (v ∷ vs) tail ≡ (pre ++ print_bytes (v ∷ []) []) ++ print_bytes vs tail
print_bytes-append pre v vs tail =
    sym (append_assoc pre (print_bytes (v ∷ []) []) (print_bytes vs tail))

module _ (alloc : Block → ℕ → Bool) (granted : Grants alloc) where
  place-Agrees :
      (p : Phys) (a v : ℕ) (r : Rom) (m : Memory)
      → v < 256
      → Shows r m
      → Agrees (place alloc a v p r) (exec_byte p a v m)
  place-Agrees (mapped phys) a v r m lt h =
      unfold exec_byte in
      let (r', e, s) = place-Stored alloc a v phys r granted h.valid in
      rw e (record {
        valid = s.valid;
        same = λ i. ground (arith, s.new_contents i, h.same i);
        same_upper = s.same_hi ∙ h.same_upper;
      })
  place-Agrees (below_base phys) a v r m lt h = unfold exec_byte place in refl
  place-Agrees overflow a v r m lt h = unfold exec_byte place in refl

  module _ (far : List FarRange) where
    data_byte-Agrees :
        (o v : ℕ) (r : Rom) (m : Memory)
        → v < 256
        → Shows r m
        → Agrees
            (data_byte alloc far (some v) o r)
            (exec_byte (phys_of far (linker_address m.upper o)) (linker_address m.upper o) v m)
    data_byte-Agrees o v r m lt h =
        subst
          (λ u.
            Agrees (data_byte alloc far (some v) o r)
              (exec_byte (phys_of far (linker_address u o)) (linker_address u o) v m))
          h.same_upper
          (unfold data_byte in
            place-Agrees (phys_of far (linker_address r.hi o)) (linker_address r.hi o) v r m lt h)

    data_bytes-suc :
        (left j : ℕ) (line : Line) (addr : ℕ) (r : Rom)
        → data_bytes alloc far (suc left) j line addr r ≡ (
            data_byte alloc far (hexbyte line (9 + j * 2)) (addr + j) r
            >>= data_bytes alloc far left (j + 1) line addr)
    unfolding data_bytes
    data_bytes-suc left j line addr r = refl

    exec_bytes-cons :
        (o v : ℕ) (vs : List ℕ) (m : Memory)
        → exec_bytes far o (v ∷ vs) m ≡ (
            exec_byte (phys_of far (linker_address m.upper o)) (linker_address m.upper o) v m
            >>= exec_bytes far (o + 1) vs)
    unfolding exec_bytes
    exec_bytes-cons o v vs m = refl

    pub data_bytes-Agrees :
        (vs : List ℕ) (pre tail : Line) (j addr o : ℕ) (r : Rom) (m : Memory)
        → All (λ v. v < 256) vs
        → 9 + j * 2 ≡ length pre
        → addr + j ≡ o
        → Shows r m
        → Agrees
            (data_bytes alloc far (length vs) j (pre ++ print_bytes vs tail) addr r)
            (exec_bytes far o vs m)
    data_bytes-Agrees [] pre tail j addr o r m fit e eo h = unfold data_bytes exec_bytes in h
    data_bytes-Agrees (v ∷ vs) pre tail j addr o r m fit e eo h =
        rw
          (
            data_bytes-suc (length vs) j (pre ++ print_bytes (v ∷ vs) tail) addr r,
            exec_bytes-cons o v vs m,
            hexbyte-print_bytes pre v (print_bytes vs tail) (9 + j * 2) fit.0 e,
            eo,
            print_bytes-append pre v vs tail,
          )
          (Agrees-bind _ _ _ _ (data_byte-Agrees o v r m fit.0 h) λ r' m' h'.
            data_bytes-Agrees vs (pre ++ print_bytes (v ∷ []) []) tail (j + 1) addr (o + 1) r' m'
              fit.1 (omega (arith, length-append pre (print_bytes (v ∷ []) []))) (omega arith) h')
