-- ===== src/Output/Marker/Unmarked.antt =====
-- Texts in which no marker stands: ParseOutputTruncationMarker and CountOutputLines of
-- backend/internal/model/execution_log.go.
use auto_restic.Shared.{
  ◌≡◌, ◌≤◌, refl, ap, ◌∙◌, suc, false, [], ◌∷◌, none, Text, contains_text, has_prefix, length,
  arith, i64_sign, ◌<◌,
}
use auto_restic.Output.Marker.RoundTrip.{contains_text-cons, find_marker-cons, match_marker_miss}
use auto_restic.Output.Marker.{
  ◌>>=◌, marker_prefix, after_literal, find_marker, int64_meta, parse_output_truncation_marker,
  count_newlines, count_output_lines,
}

after_literal-none : (p s : Text) → has_prefix s p ≡ false → after_literal p s ≡ none
unfolding after_literal has_prefix
after_literal-none [] s h = cc
after_literal-none (b ∷ p) [] h = refl
after_literal-none (b ∷ p) (a ∷ s) h = ground (arith, after_literal-none p s)

find_marker-none : (s : Text) → contains_text s marker_prefix ≡ false → find_marker s ≡ none
unfolding find_marker
find_marker-none [] h = refl
find_marker-none (c ∷ s) h =
    let (here, later) = contains_text-cons c s marker_prefix h in
    find_marker-cons c s (match_marker_miss (c ∷ s) (after_literal-none marker_prefix (c ∷ s) here))
    ∙ find_marker-none s later

pub parse-none :
    (s : Text) → contains_text s marker_prefix ≡ false → parse_output_truncation_marker s ≡ none
unfolding parse_output_truncation_marker
parse-none s h = ap (λ o. o >>= int64_meta) (find_marker-none s h)

pub count_newlines-length : (s : Text) → count_newlines s ≤ length s
unfolding count_newlines
count_newlines-length [] = omega arith
count_newlines-length (c ∷ s) = ground (arith, count_newlines-length s)

pub count_output_lines-length :
    (s : Text) → length s < i64_sign → count_output_lines s ≤ suc (length s)
unfolding count_output_lines
count_output_lines-length s h = ground (arith, count_newlines-length s)
