-- ===== src/Output/Marker/RoundTrip.antt =====
-- AppendOutputTruncationMarker and ParseOutputTruncationMarker of
-- backend/internal/model/execution_log.go, one after the other.
use native.Mathlib.Nat.{pow-suc}
use auto_restic.Shared.{
  ℕ, zero, suc, ◌+◌, ◌/◌, ◌%◌, ◌^◌, ◌<◌, ◌≡◌, ◌≢◌, refl, ap, ◌∙◌, ◌⊎◌, inl, inr, Bool, true, false,
  ◌&&◌, not, none, some, [], ◌∷◌, ◌++◌, arith, Text, is_empty, All, i64_sign, has_prefix,
  contains_text, Bool-cases,
}
use auto_restic.Output.Marker.Ends.{ends_line-cons, end_line-ends}
use auto_restic.Output.Marker.{
  newline, ends_line, end_line, digits, decimal, marker, marker_prefix, bytes_label, lines_label,
  clamp_negative, int64_meta, append_output_truncation_marker, after_literal, is_digit, scan_digits,
  scan_number, match_marker, find_marker, parse_output_truncation_marker, ◌>>=◌,
}

after_literal-append : (p s : Text) → after_literal p (p ++ s) ≡ some s
unfolding after_literal
after_literal-append [] s = refl
after_literal-append (b ∷ p) s = ground (arith, after_literal-append p s)

scan_digits-digits :
    (fuel n : ℕ) (out : Text)
    → n < 10 ^ fuel
    → scan_digits 0 (digits fuel n out) ≡ scan_digits n out
unfolding scan_digits digits
scan_digits-digits zero n out h = ap (λ k. scan_digits k out) (omega arith)
scan_digits-digits (suc fuel) n out h =
    ground (arith, pow-suc 10 fuel, scan_digits-digits fuel (n / 10) ((b'0' + n % 10) ∷ out))

scan_number-digits :
    (fuel n d : ℕ) (out : Text)
    → is_digit d ≡ true
    → scan_number (digits fuel n (d ∷ out)) ≡ some (scan_digits 0 (digits fuel n (d ∷ out)))
unfolding scan_number digits
scan_number-digits zero n d out h = rw h
scan_number-digits (suc fuel) n d out h =
    ground (arith, scan_number-digits fuel (n / 10) (b'0' + n % 10) (d ∷ out))

digits-append : (fuel n : ℕ) (out s : Text) → digits fuel n out ++ s ≡ digits fuel n (out ++ s)
unfolding digits
digits-append zero n out s = refl
digits-append (suc fuel) n out s =
    ground (arith, digits-append fuel (n / 10) ((b'0' + n % 10) ∷ out) s)

scan_number-digits-suc :
    (fuel n : ℕ) (out : Text)
    → scan_number (digits (suc fuel) n out) ≡ some (scan_digits 0 (digits (suc fuel) n out))
unfolding scan_number digits
scan_number-digits-suc fuel n out =
    ground (arith, scan_number-digits fuel (n / 10) (b'0' + n % 10) out)

-- What follows a number does not go on with it.
abbrev is_digit_next : Text → Bool
is_digit_next [] = false
is_digit_next (c ∷ _) = is_digit c

scan_digits_stop : (n : ℕ) (s : Text) → is_digit_next s ≡ false → scan_digits n s ≡ (n, s)
unfolding scan_digits
scan_digits_stop n [] h = refl
scan_digits_stop n (c ∷ s) h = rw h

-- A printed number is read back, whatever follows it that is no digit.
scan_number-decimal :
    (n : ℕ) (s : Text)
    → n < 10 ^ 20
    → is_digit_next s ≡ false
    → scan_number (decimal n ++ s) ≡ some (n, s)
unfolding decimal
scan_number-decimal n s h stop =
    ap scan_number (digits-append 20 n [] s)
    ∙ scan_number-digits-suc 19 n s
    ∙ ap some (scan_digits-digits 20 n s h ∙ scan_digits_stop n s stop)

match-marker :
    (bytes lines : ℕ)
    → bytes < 10 ^ 20
    → lines < 10 ^ 20
    → match_marker (marker bytes lines) ≡ some (bytes, lines)
unfolding match_marker marker
match-marker bytes lines hb hl =
    let tail = decimal lines ++ newline ∷ [] in
    let after_bytes = lines_label ++ tail in
    let after_prefix = bytes_label ++ (decimal bytes ++ after_bytes) in
    rw (after_literal-append marker_prefix after_prefix) (
      rw (after_literal-append bytes_label (decimal bytes ++ after_bytes)) (
        rw (scan_number-decimal bytes after_bytes hb refl) (
          rw (after_literal-append lines_label tail)
            (rw (scan_number-decimal lines (newline ∷ []) hl refl) refl))))

-- A byte that the pattern's literal parts do not hold.
abbrev Lacks : ℕ → Text → Type 0
Lacks c = All (λ b. b ≢ c)

-- A position inside lines that are ended, where the literal does not stand, matches nothing.
after_literal_miss :
    (p s m : Text)
    → Lacks newline p
    → ends_line s ≡ true
    → has_prefix s p ≡ false
    → after_literal p (s ++ m) ≡ none
unfolding after_literal has_prefix ends_line
after_literal_miss [] s m lacks ends miss = cc
after_literal_miss (b ∷ p) [] m lacks ends miss = cc
after_literal_miss (b ∷ p) (a ∷ []) m lacks ends miss = ground (arith, lacks.0)
after_literal_miss (b ∷ p) (a ∷ c ∷ s) m lacks ends miss =
    ground (arith, after_literal_miss p (c ∷ s) m lacks.1 ends)

has_prefix-newline :
    (s p : Text) → Lacks newline p → has_prefix (s ++ newline ∷ []) p ≡ has_prefix s p
unfolding has_prefix
has_prefix-newline s [] lacks = refl
has_prefix-newline [] (b ∷ p) lacks = ground (arith, lacks.0)
has_prefix-newline (a ∷ s) (b ∷ p) lacks = ground (arith, has_prefix-newline s p lacks.1)

pub match_marker_miss : (s : Text) → after_literal marker_prefix s ≡ none → match_marker s ≡ none
unfolding match_marker
match_marker_miss s h = rw h

pub find_marker-cons :
    (c : ℕ) (s : Text) → match_marker (c ∷ s) ≡ none → find_marker (c ∷ s) ≡ find_marker s
unfolding find_marker
find_marker-cons c s h = rw (h, find_marker)

prefix-Lacks-newline : Lacks newline marker_prefix
prefix-Lacks-newline = omega arith

pub contains_text-cons :
    (c : ℕ) (s p : Text)
    → contains_text (c ∷ s) p ≡ false
    → (has_prefix (c ∷ s) p ≡ false) × (contains_text s p ≡ false)
unfolding contains_text
contains_text-cons c s p h = ground arith

-- Ended lines in which the marker's first part does not stand are passed over.
find_marker-lines :
    (s m : Text)
    → contains_text s marker_prefix ≡ false
    → (is_empty s ≡ true) ⊎ (ends_line s ≡ true)
    → find_marker (s ++ m) ≡ find_marker m
find_marker-lines [] m miss ends = refl
find_marker-lines (c ∷ s) m miss (inl e) = cc
find_marker-lines (c ∷ s) m miss (inr ends) =
    let (here, later) = contains_text-cons c s marker_prefix miss in
    find_marker-cons c (s ++ m) (
      match_marker_miss (c ∷ s ++ m)
        (after_literal_miss marker_prefix (c ∷ s) m prefix-Lacks-newline ends here))
    ∙ find_marker-lines s m later (ends_line-cons c s ends)

contains_text-newline :
    (s p : Text)
    → Lacks newline p
    → contains_text (newline ∷ []) p ≡ false
    → contains_text s p ≡ false
    → contains_text (s ++ newline ∷ []) p ≡ false
unfolding contains_text
contains_text-newline [] p lacks base h = base
contains_text-newline (c ∷ s) p lacks base h =
    ground (arith, has_prefix-newline (c ∷ s) p lacks, contains_text-newline s p lacks base)

end_line-contains_text :
    (s : Text)
    → contains_text s marker_prefix ≡ false
    → contains_text (end_line s) marker_prefix ≡ false
end_line-contains_text s h = elim (Bool-cases (not (is_empty s) && not (ends_line s))) [
  | inl e ↦
      rw e (
        contains_text-newline s marker_prefix prefix-Lacks-newline (unfold contains_text in refl) h)
  | inr e ↦ rw e h
]

find_marker-match :
    (s : Text) (r : ℕ × ℕ) → is_empty s ≡ false → match_marker s ≡ some r → find_marker s ≡ some r
unfolding find_marker
find_marker-match [] r e h = cc
find_marker-match (c ∷ s) r e h = rw (h, find_marker)

int64_meta_fits :
    (bytes lines : ℕ)
    → bytes < i64_sign
    → lines < i64_sign
    → int64_meta (bytes, lines)
      ≡ some (record { truncated = true; original_bytes = bytes; original_lines = lines })
unfolding int64_meta
int64_meta_fits bytes lines hb hl = ground arith

-- Whatever text is cut, unless the marker's first part stands in it: reading the text with its
-- marker gives back the two counts, negative ones as 0.
pub parse-append_marker :
    (text : Text) (bytes lines : ℕ)
    → contains_text text marker_prefix ≡ false
    → parse_output_truncation_marker (append_output_truncation_marker text bytes lines)
      ≡ some (record {
        truncated = true;
        original_bytes = clamp_negative bytes;
        original_lines = clamp_negative lines;
      })
unfolding parse_output_truncation_marker append_output_truncation_marker
parse-append_marker text bytes lines miss =
    let b = clamp_negative bytes in
    let l = clamp_negative lines in
    let fits : (x : ℕ) → clamp_negative x < i64_sign = λ x. ground arith in
    let found : find_marker (end_line text ++ marker b l) ≡ some (b, l) =
      find_marker-lines (end_line text) (marker b l) (end_line-contains_text text miss)
        (end_line-ends text)
      ∙ find_marker-match (marker b l) (b, l) refl
          (match-marker b l (omega (arith, fits bytes)) (omega (arith, fits lines))) in
    ap (λ o. o >>= int64_meta) found ∙ int64_meta_fits b l (fits bytes) (fits lines)
