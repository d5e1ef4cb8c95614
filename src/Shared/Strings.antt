-- ===== src/Shared/Strings.antt =====
-- Go's `string`: its bytes; and the functions of package strings that the program calls.
use Prim.Native.Nat.{ℕ, zero, suc, ◌<◌, ◌+◌}
use Prim.Native.Char.{code}
use Prim.Native.String.{String}
use mathlib.Core.Path.{◌≡◌, refl, ap, ◌∙◌}
use mathlib.Core.Logic.{◌↔◌, inl, inr}
use mathlib.Core.Bool.{Bool, true, false, ◌&&◌, ◌||◌}
use mathlib.Core.List
use mathlib.Core.List.{List, [], ◌∷◌, ◌++◌, reverse, reverse-reverse}
use auto_restic.Shared.Lists.{All}
use auto_restic.Shared.Tests.{leb, nat_eq, nat_eq_iff, Eq, Bool-cases, if◌then◌else◌}
use native.Mathlib.Omega.{arith}

abbrev pub Text : Type 0
Text = List ℕ

-- The bytes of an ASCII literal.
abbrev pub codes : String → Text
codes String.[] = []
codes (String.◌∷◌ c s) = code c ∷ codes s

unfoldable pub text_eq : Text → Text → Bool
text_eq [] [] = true
text_eq (a ∷ s) (b ∷ t) = nat_eq a b && text_eq s t
text_eq _ _ = false

pub text_eq_iff : (s t : Text) → (text_eq s t ≡ true) ↔ (s ≡ t)
unfolding text_eq
text_eq_iff [] [] = ((λ _. refl), λ _. refl)
text_eq_iff [] (b ∷ t) = ((λ h. cc), λ h. cc)
text_eq_iff (a ∷ s) [] = ((λ h. cc), λ h. cc)
text_eq_iff (a ∷ s) (b ∷ t) = ground (arith, text_eq_iff s t, nat_eq_iff a b)

instance abbrev pub Eq-Text : Eq Text
Eq-Text = record { equal = text_eq; equal_iff = text_eq_iff }

abbrev pub is_empty : Text → Bool
is_empty [] = true
is_empty (_ ∷ _) = false

-- unicode.IsSpace of one byte
abbrev ascii_space : ℕ → Bool
ascii_space c = nat_eq c 32 || (leb 9 c && leb c 13)

-- How many bytes a white space at the front takes, 0 if there is none. The wide ones are the UTF-8
-- of U+0085, U+00A0, U+1680, U+2000 to U+200A, U+2028, U+2029, U+202F, U+205F and U+3000.
abbrev wide_tail : ℕ → ℕ → Bool
wide_tail b c =
    (nat_eq b 0x80
      && ((leb 0x80 c && leb c 0x8a) || nat_eq c 0xa8 || nat_eq c 0xa9 || nat_eq c 0xaf))
    || (nat_eq b 0x81 && nat_eq c 0x9f)

abbrev wide3 : ℕ → ℕ → ℕ → Bool
wide3 a b c =
    (nat_eq a 0xe1 && nat_eq b 0x9a && nat_eq c 0x80)
    || (nat_eq a 0xe2 && wide_tail b c)
    || (nat_eq a 0xe3 && nat_eq b 0x80 && nat_eq c 0x80)

abbrev wide2 : ℕ → ℕ → Bool
wide2 a b = nat_eq a 0xc2 && (nat_eq b 0x85 || nat_eq b 0xa0)

space_width : Text → ℕ
space_width [] = 0
space_width (a ∷ []) = if ascii_space a then 1 else 0
space_width (a ∷ b ∷ []) = if ascii_space a then 1 else if wide2 a b then 2 else 0
space_width (a ∷ b ∷ c ∷ _) =
    if ascii_space a then 1 else if wide2 a b then 2 else if wide3 a b c then 3 else 0

-- The same at the end of a text, which is read backwards.
space_width_last : Text → ℕ
space_width_last [] = 0
space_width_last (a ∷ []) = if ascii_space a then 1 else 0
space_width_last (a ∷ b ∷ []) = if ascii_space a then 1 else if wide2 b a then 2 else 0
space_width_last (a ∷ b ∷ c ∷ _) =
    if ascii_space a then 1 else if wide2 b a then 2 else if wide3 c b a then 3 else 0

-- Drop white space at the front; the number counts bytes of a white space that is being dropped.
trim_front : (Text → ℕ) → ℕ → Text → Text
trim_front width k [] = []
trim_front width (suc k) (a ∷ s) = trim_front width k s
trim_front width zero (a ∷ s) = elim (width (a ∷ s)) [ zero ↦ a ∷ s | suc k ↦ trim_front width k s ]

unfoldable pub trim_space : Text → Text
unfolding space_width space_width_last trim_front
trim_space s = reverse (trim_front space_width_last 0 (reverse (trim_front space_width 0 s)))

-- strings.HasPrefix, strings.HasSuffix, strings.Contains
unfoldable pub has_prefix : Text → Text → Bool
has_prefix s [] = true
has_prefix [] (b ∷ p) = false
has_prefix (a ∷ s) (b ∷ p) = nat_eq a b && has_prefix s p

unfoldable pub has_suffix : Text → Text → Bool
unfolding has_prefix
has_suffix s p = has_prefix (reverse s) (reverse p)

unfoldable pub contains_text : Text → Text → Bool
unfolding has_prefix
contains_text [] p = has_prefix [] p
contains_text (a ∷ s) p = has_prefix (a ∷ s) p || contains_text s p

-- strings.Split at one byte
unfoldable pub split_at : ℕ → Text → List Text
split_at separator [] = [] ∷ []
split_at separator (a ∷ s) = elim (split_at separator s) [
  | [] ↦ [] ∷ []
  | first ∷ others ↦ if nat_eq a separator then [] ∷ first ∷ others else (a ∷ first) ∷ others
]

-- A text without the separator is one part, and the first one where the separator follows.
abbrev pub Without : ℕ → ℕ → Type 0
Without separator c = nat_eq c separator ≡ false

pub split_at-none :
    (separator : ℕ) (s : Text) → All (Without separator) s → split_at separator s ≡ s ∷ []
unfolding split_at
split_at-none separator [] h = refl
split_at-none separator (a ∷ s) h = rw (split_at-none separator s h.1, h.0) refl

-- There is a first part.
split_at_first :
    (separator : ℕ) (s : Text)
    → (first : Text) × ((others : List Text) × (split_at separator s ≡ first ∷ others))
unfolding split_at
split_at_first separator [] = ([], ([], refl))
split_at_first separator (a ∷ s) =
    let (first, (others, e)) = split_at_first separator s in
    elim (Bool-cases (nat_eq a separator)) [
      | inl same ↦ ([], (first ∷ others, rw (e, same) refl))
      | inr different ↦ (a ∷ first, (others, rw (e, different) refl))
    ]

pub split_at-append :
    (separator : ℕ) (s t : Text)
    → All (Without separator) s
    → split_at separator (s ++ separator ∷ t) ≡ s ∷ split_at separator t
unfolding split_at
split_at-append separator [] t h =
    let (first, (others, e)) = split_at_first separator t in
    rw (e, (nat_eq_iff separator separator).1 refl) refl
split_at-append separator (a ∷ s) t h = rw (split_at-append separator s t h.1, h.0) refl

unfoldable pub join : Text → List Text → Text
join separator [] = []
join separator (s ∷ []) = s
join separator (s ∷ t ∷ ts) = s ++ separator ++ join separator (t ∷ ts)

-- U+212A and U+0130, which are not ASCII and become ASCII letters in lower case
abbrev kelvin : Text
kelvin = 0xe2 ∷ 0x84 ∷ 0xaa ∷ []

abbrev dotted_i : Text
dotted_i = 0xc4 ∷ 0xb0 ∷ []

abbrev lower : ℕ → ℕ
lower a = if leb 65 a && leb a 90 then a + 32 else a

-- The number counts bytes of a letter that is replaced.
to_lower_from : ℕ → Text → Text
unfolding has_prefix
to_lower_from k [] = []
to_lower_from (suc k) (a ∷ s) = to_lower_from k s
to_lower_from zero (a ∷ s) =
    (if has_prefix (a ∷ s) kelvin
      then 107
      else if has_prefix (a ∷ s) dotted_i
      then 105
      else lower a)
    ∷ to_lower_from
        (if has_prefix (a ∷ s) kelvin then 2 else if has_prefix (a ∷ s) dotted_i then 1 else 0) s

-- strings.ToLower, as far as the ASCII letters of its result go: letters that become other letters
-- are left as they are.
unfoldable pub to_lower : Text → Text
unfolding to_lower_from
to_lower s = to_lower_from 0 s

-- A byte that is neither white space nor part of a wider character.
abbrev pub IsPlain : ℕ → Type 0
IsPlain c = (32 < c) × (c < 128)

space_width-plain : (s : Text) → All IsPlain s → space_width s ≡ 0
unfolding space_width
space_width-plain [] h = refl
space_width-plain (a ∷ []) h = ground arith
space_width-plain (a ∷ b ∷ []) h = ground arith
space_width-plain (a ∷ b ∷ c ∷ s) h = ground arith

space_width_last-plain : (s : Text) → All IsPlain s → space_width_last s ≡ 0
unfolding space_width_last
space_width_last-plain [] h = refl
space_width_last-plain (a ∷ []) h = ground arith
space_width_last-plain (a ∷ b ∷ []) h = ground arith
space_width_last-plain (a ∷ b ∷ c ∷ s) h = ground arith

trim_front-zero : (width : Text → ℕ) (s : Text) → width s ≡ 0 → trim_front width 0 s ≡ s
unfolding trim_front
trim_front-zero width [] h = refl
trim_front-zero width (a ∷ s) h = rw (h, trim_front) refl

All-reverse_aux {ℓ κ} :
    {A : Type ℓ} (P : A → Type κ) (xs ys : List A)
    → All P xs
    → All P ys
    → All P (List.reverse_aux xs ys)
All-reverse_aux P [] ys h k = k
All-reverse_aux P (x ∷ xs) ys h k = All-reverse_aux P xs (x ∷ ys) h.1 (h.0, k)

pub All-reverse {ℓ κ} : {A : Type ℓ} (P : A → Type κ) (xs : List A) → All P xs → All P (reverse xs)
All-reverse P xs h = All-reverse_aux P xs [] h tt

-- There is nothing to trim where no byte is white space.
pub trim_space-plain : (s : Text) → All IsPlain s → trim_space s ≡ s
unfolding trim_space
trim_space-plain s h =
    ap (λ t. reverse (trim_front space_width_last 0 (reverse t)))
      (trim_front-zero space_width s (space_width-plain s h))
    ∙ ap reverse (
        trim_front-zero space_width_last (reverse s)
          (space_width_last-plain (reverse s) (All-reverse IsPlain s h)))
    ∙ reverse-reverse s
