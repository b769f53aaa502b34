-- ===== src/Peep/Names.antt =====
-- src/s1c88/peep.c: what the rules may ask of registers by their names. HAS_IYL_INST is 0 for the
-- S1C88.
pub mod Legal
use sdcc.Common.{
  ℕ, suc, ◌+◌, Bool, true, false, not, ◌&&◌, ◌||◌, List, [], ◌∷◌, ◌++◌, Option, none, some, ◌==◌,
  leb, if◌then◌else◌, Chars, chars, char_at_start, is_empty, str_eq, starts, has_str, has_char,
  length, drop, take,
}

-- `!strcmp (p, s)` for one of the texts
abbrev pub is_one_of : Chars → List Chars → Bool
is_one_of p [] = false
is_one_of p (s ∷ ss) = str_eq p s || is_one_of p ss

unfoldable pub is_reg : Chars → Bool
is_reg (c ∷ []) = has_char (chars "abcdehl") c
is_reg _ = false

unfoldable pub is_u_reg : Chars → Bool
is_u_reg what =
    is_one_of what (chars "iyl" ∷ chars "iyh" ∷ [])
    || is_one_of what (chars "ixl" ∷ chars "ixh" ∷ [])

unfoldable pub is_reg_pair : Chars → Bool
is_reg_pair what =
    length what == 2
    && is_one_of what
        (chars "ba" ∷ chars "bc" ∷ chars "de" ∷ chars "hl" ∷ chars "ix" ∷ chars "iy" ∷ [])

abbrev is_hash : Chars → Bool
is_hash p = char_at_start p == b'#'

abbrev is_index_pair : Chars → Bool
is_index_pair p = is_one_of p (chars "ix" ∷ chars "iy" ∷ [])

-- The accesses by a displacement from an index register.
unfoldable pub assign_indexed : Chars → Chars → Chars → Bool
unfolding is_reg
assign_indexed op1 op2 exotic =
    if is_index_pair exotic then is_reg op1 else if is_index_pair op2 then is_reg exotic else false

unfoldable pub assign_plain : Chars → Chars → Bool
unfolding is_reg is_reg_pair
assign_plain dst src =
    (is_reg dst && is_reg src)
    || (is_reg dst && is_hash src)
    || (is_reg dst && str_eq src (chars "(hl)"))
    || (str_eq dst (chars "(hl)") && is_reg src)
    || (str_eq dst (chars "a")
        && is_one_of src (chars "(bc)" ∷ chars "(de)" ∷ chars "(hl+)" ∷ chars "(hl-)" ∷ []))
    || ((is_one_of dst (chars "(bc)" ∷ chars "(de)" ∷ [])
          || is_one_of src (chars "(hl+)" ∷ chars "(hl-)" ∷ []))
        && str_eq src (chars "a"))
    || ((is_reg dst || is_reg_pair dst || str_eq src (chars "sp")) && is_hash src)
    || ((str_eq dst (chars "a") || is_reg_pair dst || str_eq src (chars "sp"))
        && starts src (chars "(#"))
    || (starts dst (chars "(#")
        && (str_eq src (chars "a") || is_reg_pair src || str_eq src (chars "sp")))
    || (str_eq dst (chars "(hl)") && is_hash src)
    || (str_eq dst (chars "sp") && is_one_of src (chars "hl" ∷ chars "ix" ∷ chars "iy" ∷ []))
    || (is_one_of dst (chars "hl" ∷ chars "ix" ∷ chars "iy" ∷ []) && str_eq src (chars "sp"))

unfoldable pub can_assign : Chars → Chars → Option Chars → Bool
can_assign op1 op2 (some exotic) = assign_indexed op1 op2 exotic
can_assign op1 op2 none = assign_plain op1 op2

unfoldable pub register_base_name : Chars → Chars
register_base_name op =
    if is_one_of op (chars "d" ∷ chars "e" ∷ chars "(de)" ∷ [])
    then chars "de"
    else if is_one_of op (chars "b" ∷ chars "c" ∷ chars "(bc)" ∷ [])
    then chars "bc"
    else if is_one_of op (chars "h" ∷ chars "l" ∷ chars "(hl)" ∷ chars "(hl+)" ∷ chars "(hl-)" ∷ [])
    then chars "hl"
    else if is_one_of op (chars "iyh" ∷ chars "iyl" ∷ []) || has_str op (chars "iy")
    then chars "iy"
    else if is_one_of op (chars "ixh" ∷ chars "ixl" ∷ []) || has_str op (chars "ix")
    then chars "ix"
    else if str_eq op (chars "a")
    then chars "af"
    else op

abbrev joined_name : Chars → Chars → Chars
joined_name hi lo =
    if is_empty hi
    then register_base_name lo
    else if is_empty lo
    then register_base_name hi
    else hi ++ lo

-- `dst` and the answer; none where `dst` is not written. The registers are a list that ends
-- with NULL.
unfoldable pub can_join_regs : List Chars → Option Chars × Bool
can_join_regs (hi ∷ lo ∷ []) =
    if leb 20 (length hi + length lo) || (is_empty hi && is_empty lo)
    then (none, false)
    else let name = joined_name hi lo in
      let dst =
        if is_one_of name (chars "ixhixl" ∷ chars "iyhiyl" ∷ []) then take 2 name else name in
      (some dst, is_reg_pair dst)
can_join_regs _ = (none, false)

-- The first `n_dst` byte registers of a pair; none for the answer FALSE.
unfoldable pub can_split_reg : Chars → ℕ → Option (List Chars)
can_split_reg reg n_dst =
    if leb 3 n_dst
    then none
    else if is_one_of reg (chars "ba" ∷ chars "bc" ∷ chars "de" ∷ chars "hl" ∷ [])
    then some (take n_dst (take 1 reg ∷ drop 1 reg ∷ []))
    else none
