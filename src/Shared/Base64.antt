-- ===== src/Shared/Base64.antt =====
-- RawURLEncoding of Go's package encoding/base64.
use Prim.Native.Nat.{ℕ, ◌+◌, ◌-◌, ◌*◌, ◌/◌, ◌%◌, ◌<◌}
use mathlib.Core.Path.{◌≡◌, refl, ap, ◌∙◌}
use mathlib.Core.Bool.{false, ◌&&◌, ◌||◌}
use mathlib.Core.Option.{Option, none, some}
use mathlib.Core.List.{List, [], ◌∷◌, map}
use auto_restic.Shared.Lists.{All, length}
use auto_restic.Shared.Strings.{Text, is_empty}
use auto_restic.Shared.Hex.{IsByte}
use auto_restic.Shared.Tests.{leb, ltb, nat_eq, if◌then◌else◌}
use native.Mathlib.Omega.{arith}

base64_digit : ℕ → ℕ
base64_digit d =
    if ltb d 26
    then 65 + d
    else if ltb d 52
    then 71 + d
    else if ltb d 62
    then d - 4
    else if nat_eq d 62
    then 45
    else 95

from_base64 : ℕ → Option ℕ
from_base64 c =
    if leb 65 c && leb c 90
    then some (c - 65)
    else if leb 97 c && leb c 122
    then some (c - 71)
    else if leb 48 c && leb c 57
    then some (c + 4)
    else if nat_eq c 45
    then some 62
    else if nat_eq c 95
    then some 63
    else none

-- groups of six bits
sextets : Text → List ℕ
sextets [] = []
sextets (a ∷ []) = (a / 4) ∷ (a % 4 * 16) ∷ []
sextets (a ∷ b ∷ []) = (a / 4) ∷ (a % 4 * 16 + b / 16) ∷ (b % 16 * 4) ∷ []
sextets (a ∷ b ∷ c ∷ s) =
    (a / 4) ∷ (a % 4 * 16 + b / 16) ∷ (b % 16 * 4 + c / 64) ∷ (c % 64) ∷ sextets s

unfoldable pub base64_encode : Text → Text
unfolding base64_digit sextets
base64_encode s = map base64_digit (sextets s)

base64_byte : ℕ → Option Text → Option Text
base64_byte b none = none
base64_byte b (some s) = some (b ∷ s)

-- Bits that are left over are passed over.
from_sextets : List ℕ → Option Text
unfolding base64_byte
from_sextets [] = some []
from_sextets (a ∷ []) = none
from_sextets (a ∷ b ∷ []) = some ((a * 4 + b / 16) ∷ [])
from_sextets (a ∷ b ∷ c ∷ []) = some ((a * 4 + b / 16) ∷ (b % 16 * 16 + c / 4) ∷ [])
from_sextets (a ∷ b ∷ c ∷ d ∷ s) =
    base64_byte (a * 4 + b / 16)
      (base64_byte (b % 16 * 16 + c / 4) (base64_byte (c % 4 * 64 + d) (from_sextets s)))

sextet_before : Option ℕ → Option (List ℕ) → Option (List ℕ)
sextet_before (some d) (some ds) = some (d ∷ ds)
sextet_before _ _ = none

-- Line breaks are passed over.
sextets_in : Text → Option (List ℕ)
unfolding from_base64 sextet_before
sextets_in [] = some []
sextets_in (c ∷ s) =
    let rest = sextets_in s in
    if nat_eq c 10 || nat_eq c 13 then rest else sextet_before (from_base64 c) rest

decoded_sextets : Option (List ℕ) → Option Text
decoded_sextets none = none
decoded_sextets (some ds) = from_sextets ds

-- DecodeString, where any error is none
unfoldable pub base64_decode : Text → Option Text
unfolding sextets_in decoded_sextets from_sextets
base64_decode s = decoded_sextets (sextets_in s)

abbrev IsSextet : ℕ → Type 0
IsSextet d = d < 64

sextets-IsSextet : (s : Text) → All IsByte s → All IsSextet (sextets s)
unfolding sextets
sextets-IsSextet [] h = tt
sextets-IsSextet (a ∷ []) h = (omega arith, (omega arith, tt))
sextets-IsSextet (a ∷ b ∷ []) h = (omega arith, (omega arith, (omega arith, tt)))
sextets-IsSextet (a ∷ b ∷ c ∷ s) h =
    (omega arith, (omega arith, (omega arith, (omega arith, sextets-IsSextet s h.1.1.1))))

from_sextets-sextets : (s : Text) → All IsByte s → from_sextets (sextets s) ≡ some s
unfolding sextets from_sextets
from_sextets-sextets [] h = refl
from_sextets-sextets (a ∷ []) h = ap (λ (x : ℕ). some (x ∷ [])) (omega arith)
from_sextets-sextets (a ∷ b ∷ []) h = ground arith
from_sextets-sextets (a ∷ b ∷ c ∷ s) h = ground (arith, from_sextets-sextets s h.1.1.1)

from_base64-digit :
    (d : ℕ)
    → IsSextet d
    → (from_base64 (base64_digit d) ≡ some d)
      × ((nat_eq (base64_digit d) 10 || nat_eq (base64_digit d) 13) ≡ false)
unfolding from_base64 base64_digit
from_base64-digit d h = ground arith

sextets_in-map : (ds : List ℕ) → All IsSextet ds → sextets_in (map base64_digit ds) ≡ some ds
unfolding sextets_in
sextets_in-map [] h = refl
sextets_in-map (d ∷ ds) h =
    rw ((from_base64-digit d h.0).1, (from_base64-digit d h.0).0, sextets_in-map ds h.1) refl

pub base64_decode-encode : (s : Text) → All IsByte s → base64_decode (base64_encode s) ≡ some s
unfolding base64_decode base64_encode
base64_decode-encode s h =
    ap decoded_sextets (sextets_in-map (sextets s) (sextets-IsSextet s h))
    ∙ from_sextets-sextets s h

-- No dot is among the digits.
abbrev pub IsNoDot : ℕ → Type 0
IsNoDot c = nat_eq c 46 ≡ false

pub base64_encode-IsNoDot : (s : Text) → All IsByte s → All IsNoDot (base64_encode s)
unfolding base64_encode
base64_encode-IsNoDot s h = go (sextets s) (sextets-IsSextet s h)
  where
    no_dot : (d : ℕ) → IsSextet d → IsNoDot (base64_digit d)
    no_dot d h = ground arith

    go : (ds : List ℕ) → All IsSextet ds → All IsNoDot (map base64_digit ds)
    go [] h = tt
    go (d ∷ ds) h = (no_dot d h.0, go ds h.1)

pub is_empty-base64_encode : (s : Text) → 0 < length s → is_empty (base64_encode s) ≡ false
unfolding base64_encode
is_empty-base64_encode [] h = elim h [ ]
is_empty-base64_encode (a ∷ []) h = refl
is_empty-base64_encode (a ∷ b ∷ []) h = refl
is_empty-base64_encode (a ∷ b ∷ c ∷ s) h = refl
