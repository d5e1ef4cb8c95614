-- ===== src/Web/Params.antt =====
-- Numbers in requests: backend/internal/handler/params.go.
use auto_restic.Shared.{
  ◌+◌, ◌-◌, ◌*◌, ℕ, zero, suc, ℤ, pos, negsuc, nat_eq, ltb, leb, [], ◌∷◌, Option, none, some, Text,
  is_empty, if◌then◌else◌, ◌&&◌, i64_sign,
}

-- the number that digits spell, behind one that was read
abbrev pub from_digits : ℕ → Text → Option ℕ
from_digits n [] = some n
from_digits n (c ∷ s) =
    let rest = from_digits (n * 10 + (c - 48)) s in if leb 48 c && leb c 57 then rest else none

abbrev pub unsigned : Text → Option ℕ
unsigned [] = none
unsigned (c ∷ s) = from_digits 0 (c ∷ s)

abbrev pub not_above : Option ℕ → Option ℤ
not_above none = none
not_above (some n) = if ltb n i64_sign then some (pos n) else none

abbrev pub not_below : Option ℕ → Option ℤ
not_below none = none
not_below (some zero) = some (pos 0)
not_below (some (suc n)) = if ltb n i64_sign then some (negsuc n) else none

-- strconv.ParseInt(value, 10, 64), where any error is none
unfoldable pub parse_int : Text → Option ℤ
parse_int [] = none
parse_int (c ∷ s) =
    if nat_eq c 43
    then not_above (unsigned s)
    else if nat_eq c 45
    then not_below (unsigned s)
    else not_above (unsigned (c ∷ s))

abbrev pub positive_only : Option ℤ → Option ℕ
positive_only (some (pos (suc n))) = some (suc n)
positive_only _ = none

-- parseInt64Param and parseInt64Query, by the value
unfoldable pub parse_int64_param : Text → Option ℕ
unfolding parse_int
parse_int64_param value = positive_only (parse_int value)

unfoldable pub parse_int_query_with_default : Text → ℕ → Option ℕ
unfolding parse_int
parse_int_query_with_default value fallback =
    if is_empty value then some fallback else positive_only (parse_int value)
