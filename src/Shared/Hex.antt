-- ===== src/Shared/Hex.antt =====
-- Go's package encoding/hex.
use Prim.Native.Nat.{ℕ, ◌+◌, ◌-◌, ◌*◌, ◌/◌, ◌%◌, ◌<◌}
use mathlib.Core.Path.{◌≡◌, refl, ap}
use mathlib.Core.Bool.{false, ◌&&◌}
use mathlib.Core.Option.{Option, none, some}
use mathlib.Core.List.{[], ◌∷◌}
use auto_restic.Shared.Lists.{All, length}
use auto_restic.Shared.Strings.{Text, IsPlain, is_empty}
use auto_restic.Shared.Tests.{leb, ltb, if◌then◌else◌}
use native.Mathlib.Omega.{arith}

abbrev pub IsByte : ℕ → Type 0
IsByte b = b < 256

hex_digit : ℕ → ℕ
hex_digit d = if ltb d 10 then 48 + d else 87 + d

from_hex : ℕ → Option ℕ
from_hex c =
    if leb 48 c && leb c 57
    then some (c - 48)
    else if leb 97 c && leb c 102
    then some (c - 87)
    else if leb 65 c && leb c 70
    then some (c - 55)
    else none

unfoldable pub hex_encode : Text → Text
unfolding hex_digit
hex_encode [] = []
hex_encode (b ∷ bs) = hex_digit (b / 16) ∷ hex_digit (b % 16) ∷ hex_encode bs

hex_byte : Option ℕ → Option ℕ → Option Text → Option Text
hex_byte (some a) (some b) (some bs) = some ((a * 16 + b) ∷ bs)
hex_byte _ _ _ = none

-- DecodeString, where any error is none
unfoldable pub hex_decode : Text → Option Text
unfolding from_hex hex_byte
hex_decode [] = some []
hex_decode (a ∷ []) = none
hex_decode (a ∷ b ∷ s) = hex_byte (from_hex a) (from_hex b) (hex_decode s)

from_hex-hex_digit : (d : ℕ) → d < 16 → from_hex (hex_digit d) ≡ some d
unfolding from_hex hex_digit
from_hex-hex_digit d h = ground arith

pub hex_decode-encode : (bs : Text) → All IsByte bs → hex_decode (hex_encode bs) ≡ some bs
unfolding hex_decode hex_encode
hex_decode-encode [] h = refl
hex_decode-encode (b ∷ bs) h =
    rw
      (
        from_hex-hex_digit (b / 16) (omega arith),
        from_hex-hex_digit (b % 16) (omega arith),
        hex_decode-encode bs h.1,
        hex_byte,
      )
      (ap (λ (x : ℕ). some (x ∷ bs)) (omega arith))

pub hex_encode-IsPlain : (bs : Text) → All IsByte bs → All IsPlain (hex_encode bs)
unfolding hex_encode
hex_encode-IsPlain [] h = tt
hex_encode-IsPlain (b ∷ bs) h =
    (plain (b / 16) (omega arith), (plain (b % 16) (omega arith), hex_encode-IsPlain bs h.1))
  where
    plain : (d : ℕ) → d < 16 → IsPlain (hex_digit d)
    plain d h = ground arith

pub length-hex_encode : (bs : Text) → length (hex_encode bs) ≡ 2 * length bs
unfolding hex_encode
length-hex_encode [] = omega arith
length-hex_encode (b ∷ bs) = omega (arith, length-hex_encode bs)

pub is_empty-hex_encode : (bs : Text) → 0 < length bs → is_empty (hex_encode bs) ≡ false
unfolding hex_encode
is_empty-hex_encode [] h = elim h [ ]
is_empty-hex_encode (b ∷ bs) h = refl
