-- ===== src/Output/Marker.antt =====
-- Counting lines, the limit on output, and the marker of a truncated text:
-- backend/internal/model/execution_log.go.
pub mod Ends
pub mod RoundTrip
pub mod Unmarked
use auto_restic.Shared.{
  ℕ, zero, suc, ◌+◌, ◌-◌, ◌*◌, ◌/◌, ◌%◌, ◌^◌, ◌≡◌, refl, Bool, true, false, ◌&&◌, ◌||◌, not, Option,
  none, some, List, [], ◌∷◌, ◌++◌, arith, Text, codes, is_empty, ltb, leb, nat_eq, if◌then◌else◌, ℤ,
  pos, negsuc, add64, is_neg, i64_sign,
}

abbrev pub default_log_output_limit : ℕ
default_log_output_limit = 64 * 1024

abbrev pub max_log_output_limit : ℕ
max_log_output_limit = 256 * 1024

unfoldable pub clamp_log_output_limit : ℤ → ℕ
clamp_log_output_limit (negsuc _) = default_log_output_limit
clamp_log_output_limit (pos limit) =
    if leb limit 0
    then default_log_output_limit
    else if ltb max_log_output_limit limit
    then max_log_output_limit
    else limit

abbrev pub newline : ℕ
newline = 10

-- strings.Count(text, "\n")
unfoldable pub count_newlines : Text → ℕ
count_newlines [] = 0
count_newlines (c ∷ s) = let rest = count_newlines s in if nat_eq c newline then suc rest else rest

-- strings.HasSuffix(text, "\n")
unfoldable pub ends_line : Text → Bool
ends_line [] = false
ends_line (c ∷ []) = nat_eq c newline
ends_line (c ∷ d ∷ s) = ends_line (d ∷ s)

unfoldable pub count_output_lines : Text → ℕ
unfolding count_newlines ends_line
count_output_lines text =
    if is_empty text
    then 0
    else if ends_line text
    then count_newlines text
    else add64 (count_newlines text) 1

pub record ExecutionOutputMeta : Type 0 where
  pub truncated : Bool
  pub original_bytes : ℕ
  pub original_lines : ℕ

-- The digits of %d at a number that is not negative; an int64 has at most 19.
digits : ℕ → ℕ → Text → Text
digits zero n out = out
digits (suc fuel) n out =
    let more = digits fuel (n / 10) ((b'0' + n % 10) ∷ out) in
    if ltb n 10 then (b'0' + n) ∷ out else more

unfoldable pub decimal : ℕ → Text
unfolding digits
decimal n = digits 20 n []

abbrev pub marker_prefix : Text
marker_prefix = codes "[autorestic-output-truncated]"

abbrev bytes_label : Text
bytes_label = codes " original_bytes="

abbrev lines_label : Text
lines_label = codes " original_lines="

abbrev pub clamp_negative : ℕ → ℕ
clamp_negative x = if is_neg x then 0 else x

-- A text that does not end its line gets a newline.
abbrev pub end_line : Text → Text
end_line text = if not (is_empty text) && not (ends_line text) then text ++ newline ∷ [] else text

pub marker : ℕ → ℕ → Text
marker bytes lines =
    marker_prefix
    ++ (bytes_label ++ (decimal bytes ++ (lines_label ++ (decimal lines ++ newline ∷ []))))

unfoldable pub append_output_truncation_marker : Text → ℕ → ℕ → Text
unfolding marker ends_line
append_output_truncation_marker text bytes lines =
    end_line text ++ marker (clamp_negative bytes) (clamp_negative lines)

-- A literal part of the pattern: what follows it.
pub after_literal : Text → Text → Option Text
after_literal [] s = some s
after_literal (b ∷ p) [] = none
after_literal (b ∷ p) (a ∷ s) = let rest = after_literal p s in if nat_eq a b then rest else none

abbrev pub is_digit : ℕ → Bool
is_digit c = leb b'0' c && leb c b'9'

-- `\d*` takes all the digits there are; what they spell is kept with what follows. The value has
-- no bound here: ParseInt refuses below what an int64 does not hold.
pub scan_digits : ℕ → Text → ℕ × Text
scan_digits n [] = (n, [])
scan_digits n (c ∷ s) =
    let rest = scan_digits (n * 10 + (c - b'0')) s in if is_digit c then rest else (n, c ∷ s)

-- `(\d+)`
pub scan_number : Text → Option (ℕ × Text)
unfolding scan_digits
scan_number [] = none
scan_number (c ∷ s) = if is_digit c then some (scan_digits 0 (c ∷ s)) else none

-- `\n?$` under (?m): the end of the text or of a line.
abbrev at_line_end : Text → Bool
at_line_end [] = true
at_line_end (c ∷ _) = nat_eq c newline

infixl 5 ◌>>=◌
abbrev pub ◌>>=◌ {ℓ κ} : {A : Type ℓ} {B : Type κ} → Option A → (A → Option B) → Option B
none >>= f = none
some a >>= f = f a

-- The pattern at one position.
pub match_marker : Text → Option (ℕ × ℕ)
match_marker s = do
  s₁ ← after_literal marker_prefix s
  s₂ ← after_literal bytes_label s₁
  r ← scan_number s₂
  s₃ ← after_literal lines_label r.1
  q ← scan_number s₃
  if at_line_end q.1 then some (r.0, q.0) else none

-- FindStringSubmatch: the leftmost position that matches.
pub find_marker : Text → Option (ℕ × ℕ)
find_marker [] = none
find_marker (c ∷ s) = elim (match_marker (c ∷ s)) [ some m ↦ some m | none ↦ find_marker s ]

-- ParseInt(…, 10, 64) fails on what an int64 does not hold.
pub int64_meta : ℕ × ℕ → Option ExecutionOutputMeta
int64_meta (bytes, lines) =
    if ltb bytes i64_sign && ltb lines i64_sign
    then some (record { truncated = true; original_bytes = bytes; original_lines = lines })
    else none

unfoldable pub parse_output_truncation_marker : Text → Option ExecutionOutputMeta
unfolding find_marker match_marker after_literal scan_number int64_meta
parse_output_truncation_marker text = find_marker text >>= int64_meta
