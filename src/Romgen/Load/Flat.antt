-- ===== src/Romgen/Load/Flat.antt =====
-- The flat ROM file of tools/romgen.c against the meaning of the records.
use sdcc.Common.{
  ℕ, suc, ◌<◌, ◌≡◌, ◌≢◌, refl, ◌∙◌, Bool, List, none, some, arith, length, take, get_or-take,
  length-take, map, get_or,
}
use mathlib.Core.Option
use sdcc.Romgen.Hex.{Line}
use sdcc.Romgen.Address.{FarRange}
use sdcc.Romgen.Load.{flat}
use sdcc.Romgen.Load.Records.{HexRecord, print_record, All, IsWellFormed, Memory, exec}
use sdcc.Romgen.Rom.{Rom, Block, start}
use sdcc.Romgen.Rom.Store.{Grants, start-IsValid}
use sdcc.Romgen.Result.{Result, ok, err, ◌>>=◌}
use sdcc.Romgen.Load.Bytes.{Shows, Agrees}
use sdcc.Romgen.Load.Refines.{load-Agrees}

abbrev pub empty : Memory
empty = record { at = λ _. none; upper = 0 }

start-Shows : Shows start empty
start-Shows = record { valid = start-IsValid; same = λ i. refl; same_upper = refl }

-- What the flat file has at each offset: the defined byte, and 0xFF in the gaps. It holds every
-- defined byte, and its last byte is one.
pub record IsImage (m : Memory) (image : List ℕ) : Type 0 where
  pub bytes_at : (i : ℕ) → get_or image i 0xFF ≡ Option.get_or (m.at i) 0xFF
  pub within : (i v : ℕ) → m.at i ≡ some v → i < length image
  pub tight : (i : ℕ) → suc i ≡ length image → m.at i ≢ none

abbrev pub FlatAgrees : Result (List ℕ) → Result Memory → Type 0
FlatAgrees (ok image) (ok m) = IsImage m image
FlatAgrees (err e) (err e') = e ≡ e'
FlatAgrees (ok image) (err e) = ⊥
FlatAgrees (err e) (ok m) = ⊥

Shows-IsImage : (r : Rom) (m : Memory) → Shows r m → IsImage m (take r.size r.img)
Shows-IsImage r m h = record {
  bytes_at = λ i.
      get_or-take r.size r.img i 0xFF ∙ ground (arith, h.valid.blank i, h.valid.inside i, h.same i);
  within = λ i v e. ground (
    arith,
    h.valid.inside i,
    h.valid.size_cap,
    h.valid.img_cap,
    h.same i,
    length-take r.size r.img,
  );
  tight = λ i e n. ground (
    arith,
    h.valid.tight i,
    h.valid.size_cap,
    h.valid.img_cap,
    h.same i,
    length-take r.size r.img,
  );
}

-- With memory granted, the flat file of a list of well-formed printed records holds what the
-- records mean: every defined byte at its offset, 0xFF in the gaps, and it ends right behind the
-- last defined byte. Where the records
-- have no meaning, the tool stops with the error of the first byte that has none.
pub flat-FlatAgrees :
    (alloc : Block → ℕ → Bool) (far : List FarRange) (tail : Line) (rs : List HexRecord)
    → Grants alloc
    → All IsWellFormed rs
    → FlatAgrees (flat alloc far (map (print_record tail) rs)) (exec far rs empty)
unfolding flat
flat-FlatAgrees alloc far tail rs granted fit =
    finish_flat _ _ (load-Agrees alloc granted far tail rs start empty fit start-Shows)
  where
    finish_flat :
        (x : Result Rom) (y : Result Memory)
        → Agrees x y
        → FlatAgrees (x >>= λ r. ok (take r.size r.img)) y
    finish_flat (ok r) (ok m) h = Shows-IsImage r m h
    finish_flat (err e) (err e') h = h
    finish_flat (ok r) (err e) h = absurd h
    finish_flat (err e) (ok m) h = absurd h
