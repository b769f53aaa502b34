-- ===== src/As88/Manual/Decode.antt =====
-- What a code means, by the operation code map.
use sdcc.Common.{ℕ, ◌/◌, ◌%◌, List, [], ◌∷◌, ◌==◌, if◌then◌else◌, get_or}
use sdcc.As88.Manual.{Row, other}
use sdcc.As88.Manual.Main.{main_page}
use sdcc.As88.Manual.Ce.{ce_page}
use sdcc.As88.Manual.Cf.{cf_page}

abbrev look_up : List (List Row) → ℕ → Row
look_up page n = get_or (get_or page (n / 16) []) (n % 16) other

unfoldable pub manual : List ℕ → Row
manual (op ∷ []) = look_up main_page op
manual (prefix ∷ op ∷ []) =
    if prefix == 0xCE
    then look_up ce_page op
    else if prefix == 0xCF
    then look_up cf_page op
    else other
manual _ = other
