-- ===== src/Common/Strings.antt =====
-- C strings: a `char *` is the list of the characters in front of the terminator, and a pointer
-- into a string is what is left of it. A read behind the terminator sees 0.
use Prim.Native.Nat.{ℕ, ◌+◌}
use Prim.Native.Char.{code}
use Prim.Native.String.{String}
use mathlib.Core.Path.{◌≡◌, refl, ap₂}
use native.Mathlib.Omega.{arith}
use mathlib.Core.Bool.{Bool, true, false, ◌&&◌, ◌||◌}
use mathlib.Core.List.{List, [], ◌∷◌}
use mathlib.Core.Option.{Option, none, some}
use sdcc.Common.Tests.{leb, ◌==◌, if◌then◌else◌}

abbrev pub Chars : Type 0
Chars = List ℕ

abbrev pub chars : String → Chars
chars String.[] = []
chars (String.◌∷◌ c s) = code c ∷ chars s

-- `*p`, and whether `p` is at the terminator.
abbrev pub char_at_start : Chars → ℕ
char_at_start [] = 0
char_at_start (c ∷ s) = c

abbrev pub is_empty : Chars → Bool
is_empty [] = true
is_empty (c ∷ s) = false

-- `isspace` and `tolower` of the C locale.
abbrev pub is_space : ℕ → Bool
is_space c = c == 32 || (leb 9 c && leb c 13)

abbrev pub to_lower : ℕ → ℕ
to_lower c = if leb b'A' c && leb c b'Z' then c + 32 else c

-- `strcmp (p, s) == 0`
abbrev pub str_eq : Chars → Chars → Bool
str_eq [] [] = true
str_eq (p ∷ ps) (s ∷ ss) = (p == s) && str_eq ps ss
str_eq _ _ = false

-- `strncmp (p, s, strlen (s)) == 0`, and the same without regard to case
abbrev pub starts : Chars → Chars → Bool
starts ps [] = true
starts [] (s ∷ ss) = false
starts (p ∷ ps) (s ∷ ss) = (p == s) && starts ps ss

abbrev pub starts_nocase : Chars → Chars → Bool
starts_nocase ps [] = true
starts_nocase [] (s ∷ ss) = false
starts_nocase (p ∷ ps) (s ∷ ss) = (to_lower p == to_lower s) && starts_nocase ps ss

-- `strchr (p, c)`, for a character other than the terminator
abbrev pub strchr : Chars → ℕ → Option Chars
strchr [] c = none
strchr (p ∷ ps) c = if p == c then some (p ∷ ps) else strchr ps c

abbrev pub has_char : Chars → ℕ → Bool
has_char [] c = false
has_char (p ∷ ps) c = p == c || has_char ps c

-- `strstr (p, s)`
abbrev pub strstr : Chars → Chars → Option Chars
strstr [] s = if is_empty s then some [] else none
strstr (p ∷ ps) s = if starts (p ∷ ps) s then some (p ∷ ps) else strstr ps s

abbrev pub has_str : Chars → Chars → Bool
has_str p s = elim (strstr p s) [ none ↦ false | some q ↦ true ]

-- `while (isspace (*p)) p++`
abbrev pub skip_spaces : Chars → Chars
skip_spaces [] = []
skip_spaces (c ∷ s) = if is_space c then skip_spaces s else c ∷ s

pub str_eq-eq : (p s : Chars) → str_eq p s ≡ true → p ≡ s
str_eq-eq [] [] h = refl
str_eq-eq [] (y ∷ s) h = cc
str_eq-eq (x ∷ p) [] h = cc
str_eq-eq (x ∷ p) (y ∷ s) h = ap₂ ◌∷◌ (ground arith) (str_eq-eq p s (ground arith))

pub str_eq_refl : (p : Chars) → str_eq p p ≡ true
str_eq_refl [] = refl
str_eq_refl (x ∷ p) = let ih = str_eq_refl p in ground arith
