-- ===== src/Romgen/Load/Refines.antt =====
-- The loading loop of tools/romgen.c refines the meaning of the records that it reads.
use sdcc.Common.{ℕ, ◌/◌, ◌%◌, ◌≡◌, refl, Bool, false, List, [], ◌∷◌, arith, length, map}
use sdcc.Romgen.Hex.{Line}
use sdcc.Romgen.Address.{FarRange}
use sdcc.Romgen.Load.{load_line, load}
use sdcc.Romgen.Load.Records.{
  HexRecord, note, ela, bytes, finish, print_bytes, print_record, All, IsWellFormed, Memory,
  exec_bytes, exec,
}
use sdcc.Romgen.Rom.{Rom, Block}
use sdcc.Romgen.Rom.Store.{Grants}
use sdcc.Romgen.Result.{Result, ok, err, ◌>>=◌}
use sdcc.Romgen.Load.Bytes.{Shows, Agrees, Agrees-bind, data_bytes-Agrees}
use sdcc.Romgen.Load.Lines.{load_line-note, load_line-bytes, load_line-ela, load_line-finish}

module _ (alloc : Block → ℕ → Bool) (far : List FarRange) where
  -- What the loop does behind a line that does not end the file.
  load-continue :
      (line : Line) (lines : List Line) (r : Rom) (x : Result Rom)
      → load_line alloc far line r ≡ (x >>= λ r'. ok (r', false))
      → load alloc far (line ∷ lines) r ≡ (x >>= load alloc far lines)
  unfolding load
  load-continue line lines r (ok r') e = rw e
  load-continue line lines r (err why) e = rw e

module _ (far : List FarRange) where
  exec-note :
      (c : ℕ) (text : Line) (rs : List HexRecord) (m : Memory)
      → exec far (note c text ∷ rs) m ≡ exec far rs m
  unfolding exec
  exec-note c text rs m = refl

  exec-ela :
      (upper : ℕ) (rs : List HexRecord) (m : Memory)
      → exec far (ela upper ∷ rs) m ≡ exec far rs (record m { upper = upper })
  unfolding exec
  exec-ela upper rs m = refl

  exec-bytes :
      (addr : ℕ) (vs : List ℕ) (rs : List HexRecord) (m : Memory)
      → exec far (bytes addr vs ∷ rs) m ≡ (exec_bytes far addr vs m >>= exec far rs)
  unfolding exec
  exec-bytes addr vs rs m = refl

Shows-upper :
    (r : Rom) (m : Memory) (upper : ℕ)
    → Shows r m
    → Shows (record r { hi = upper }) (record m { upper = upper })
Shows-upper r m upper h = record {
  valid = record {
    img_cap = h.valid.img_cap;
    wr_cap = h.valid.wr_cap;
    size_cap = h.valid.size_cap;
    blank = h.valid.blank;
    inside = h.valid.inside;
    tight = h.valid.tight;
  };
  same = h.same;
  same_upper = refl;
}

-- What stands before the data of a printed record.
abbrev data_header : ℕ → List ℕ → Line
data_header addr vs = b':' ∷ print_bytes (length vs ∷ addr / 256 ∷ addr % 256 ∷ 0 ∷ []) []

module _ (alloc : Block → ℕ → Bool) (granted : Grants alloc) (far : List FarRange)
    (tail : Line) where
  -- The loop, on printed records, gives what the records mean, errors included.
  pub load-Agrees :
      (rs : List HexRecord) (r : Rom) (m : Memory)
      → All IsWellFormed rs
      → Shows r m
      → Agrees (load alloc far (map (print_record tail) rs) r) (exec far rs m)
  load-Agrees [] r m fit h = unfold load exec in h
  load-Agrees (note c text ∷ rs) r m fit h =
      rw
        (
          load-continue alloc far _ (map (print_record tail) rs) r (ok r)
              (load_line-note alloc far c text tail r fit.0),
          exec-note far c text rs m,
        )
        (load-Agrees rs r m fit.1 h)
  load-Agrees (ela upper ∷ rs) r m fit h =
      rw
        (
          load-continue alloc far _ (map (print_record tail) rs) r (ok (record r { hi = upper }))
              (load_line-ela alloc far upper tail r fit.0),
          exec-ela far upper rs m,
        )
        (load-Agrees rs (record r { hi = upper }) (record m { upper = upper }) fit.1
          (Shows-upper r m upper h))
  load-Agrees (bytes addr vs ∷ rs) r m fit h =
      rw
        (
          load-continue alloc far _ (map (print_record tail) rs) r _
              (load_line-bytes alloc far addr vs tail r fit.0),
          exec-bytes far addr vs rs m,
        )
        (Agrees-bind _ _ _ _
          (data_bytes-Agrees alloc granted far vs (data_header addr vs) tail 0 addr addr r m fit.0.2
            refl (omega arith) h)
          λ r' m' h'. load-Agrees rs r' m' fit.1 h')
  load-Agrees (finish ∷ rs) r m fit h = unfold load exec in rw (load_line-finish alloc far tail r) h
