-- ===== src/Romgen/Result.antt =====
-- The ways in which tools/romgen.c gives up on an input record, as values.
use sdcc.Common.{ℕ}

-- One constructor for each message that sets `rc`. `common_overflow` carries the logic address
-- that the message prints, `below_cart` the physical one.
pub data Error : Type 0 where
  malformed_record bad_ela bad_data_byte : Error
  common_overflow below_cart : ℕ → Error
  out_of_memory : Error

-- What a step of the loop over the records gives: the tool exits, or goes on with a value.
pub data Result {ℓ} (T : Type ℓ) : Type ℓ where
  err : Error → Result T
  ok : T → Result T

module _ {ℓ κ} {S : Type ℓ} {T : Type κ} where
  infixl 5 ◌>>=◌
  abbrev pub ◌>>=◌ : Result S → (S → Result T) → Result T
  err why >>= next = err why
  ok s >>= next = next s
