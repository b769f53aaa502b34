-- ===== src/Romgen/Load/Lines.antt =====
-- What tools/romgen.c does with one printed line.
use sdcc.Common.{
  ℕ, ◌+◌, ◌*◌, ◌/◌, ◌%◌, ◌^◌, ◌<◌, ◌≡◌, refl, ◌∙◌, Bool, true, false, List, [], ◌∷◌, arith, ◌==◌,
  length,
}
use sdcc.Romgen.Hex.{Line}
use sdcc.Romgen.Address.{FarRange}
use sdcc.Romgen.Load.{data_bytes, set_ela, record_body, record_header, load_line}
use sdcc.Romgen.Load.Records.{note, ela, bytes, finish, print_bytes, print_record, IsWellFormed}
use sdcc.Romgen.Rom.{Rom, Block}
use sdcc.Romgen.Result.{ok, ◌>>=◌}
use sdcc.Romgen.Load.Bytes.{hexbyte-print_bytes}

div-mod-256 : (n : ℕ) → n / 256 * 2 ^ 8 + n % 256 ≡ n
div-mod-256 n = omega arith

module _ (alloc : Block → ℕ → Bool) (far : List FarRange) where
  -- A line that begins like a record and has four header bytes.
  load_line-header :
      (ln a1 a0 typ : ℕ) (rest : Line) (r : Rom)
      → ln < 256
      → a1 < 256
      → a0 < 256
      → typ < 256
      → let line = b':' ∷ print_bytes (ln ∷ a1 ∷ a0 ∷ typ ∷ []) rest in
        load_line alloc far line r ≡ record_body alloc far ln (a1 * 2 ^ 8 + a0) typ line r
  unfolding load_line record_header
  load_line-header ln a1 a0 typ rest r l1 l2 l3 l4 =
      rw
        (
          hexbyte-print_bytes (b':' ∷ []) ln (print_bytes (a1 ∷ a0 ∷ typ ∷ []) rest) 1 l1 refl,
          hexbyte-print_bytes (b':' ∷ print_bytes (ln ∷ []) []) a1
              (print_bytes (a0 ∷ typ ∷ []) rest) 3 l2 refl,
          hexbyte-print_bytes (b':' ∷ print_bytes (ln ∷ a1 ∷ []) []) a0
              (print_bytes (typ ∷ []) rest) 5 l3 refl,
          hexbyte-print_bytes (b':' ∷ print_bytes (ln ∷ a1 ∷ a0 ∷ []) []) typ rest 7 l4 refl,
        )
        refl

  pub load_line-bytes :
      (addr : ℕ) (vs : List ℕ) (tail : Line) (r : Rom)
      → IsWellFormed (bytes addr vs)
      → load_line alloc far (print_record tail (bytes addr vs)) r ≡ (
          data_bytes alloc far (length vs) 0 (print_record tail (bytes addr vs)) addr r >>= λ r'.
          ok (r', false))
  load_line-bytes addr vs tail r fit =
      load_line-header (length vs) (addr / 256) (addr % 256) 0 (print_bytes vs tail) r fit.1
        (omega arith) (omega arith) (omega arith)
      ∙ rw (div-mod-256 addr) (unfold record_body in refl)

  pub load_line-ela :
      (upper : ℕ) (tail : Line) (r : Rom)
      → upper < 2 ^ 16
      → load_line alloc far (print_record tail (ela upper)) r ≡ ok (record r { hi = upper }, false)
  load_line-ela upper tail r fit =
      load_line-header 2 0 0 4 (print_bytes (upper / 256 ∷ upper % 256 ∷ []) tail) r (omega arith)
        (omega arith) (omega arith) (omega arith)
      ∙ unfold record_body set_ela in
        rw
          (
            hexbyte-print_bytes (b':' ∷ print_bytes (2 ∷ 0 ∷ 0 ∷ 4 ∷ []) []) (upper / 256)
                (print_bytes (upper % 256 ∷ []) tail) 9 (omega arith) refl,
            hexbyte-print_bytes (b':' ∷ print_bytes (2 ∷ 0 ∷ 0 ∷ 4 ∷ upper / 256 ∷ []) [])
                (upper % 256) tail 11 (omega arith) refl,
            div-mod-256 upper,
          )
          refl

  pub load_line-note :
      (c : ℕ) (text tail : Line) (r : Rom)
      → (c == b':') ≡ false
      → load_line alloc far (print_record tail (note c text)) r ≡ ok (r, false)
  unfolding load_line
  load_line-note c text tail r h = rw h

  pub load_line-finish :
      (tail : Line) (r : Rom) → load_line alloc far (print_record tail finish) r ≡ ok (r, true)
  load_line-finish tail r =
      load_line-header 0 0 0 1 tail r (omega arith) (omega arith) (omega arith) (omega arith)
      ∙ unfold record_body in refl
