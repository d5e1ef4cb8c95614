-- ===== src/Logs/Views.antt =====
-- What the reader of a log is told of a text that was cut:
-- backend/internal/repository/log_store.go.
use auto_restic.Shared.{
  ◌++◌, length-append, ◌≡◌, ◌⊎◌, ◌<◌, ◌≤◌, refl, ap, sym, subst, ◌∙◌, inl, inr, ℕ, suc, nat_eq, ltb,
  true, false, [], ◌∷◌, some, Text, contains_text, length, i64_sign, is_empty, Bool-cases, arith,
  ◌&&◌,
}
use auto_restic.Output.Marker.{
  append_output_truncation_marker, ExecutionOutputMeta, marker_prefix,
  parse_output_truncation_marker, clamp_negative, count_output_lines,
}
use auto_restic.Output.Marker.Unmarked.{
  parse-none, count_newlines-length, count_output_lines-length,
}
use auto_restic.Output.Marker.RoundTrip.{parse-append_marker}
use auto_restic.Logs.{
  count_newlines, normalize_log_output, log_field, cut_or_whole, marked_or_cut, or_count,
}

abbrev pub shown : (ℕ → Text → Text) → ℕ → Text → Text × ExecutionOutputMeta
shown substr limit text = normalize_log_output (log_field substr limit text)

-- A value of a text with this number of bytes is shown whole, and as whole; or with a marker that
-- gives the number.
abbrev IsTold : Text → ℕ → Text × ExecutionOutputMeta → Type 0
IsTold value bytes (text, meta) =
    ((meta.truncated ≡ false) × ((bytes ≤ length value) × (text ≡ value)))
    ⊎ ((meta.truncated ≡ true)
        × ((length value < bytes)
            × ((text ≡ append_output_truncation_marker value bytes meta.original_lines)
                × ((parse_output_truncation_marker text ≡ some meta)
                    × (meta.original_bytes ≡ bytes)))))

unclamped : (n : ℕ) → n < i64_sign → clamp_negative n ≡ n
unclamped n h = ground arith

cut_or_whole-IsTold :
    (value : Text) (bytes lines : ℕ)
    → contains_text value marker_prefix ≡ false
    → bytes < i64_sign
    → lines < i64_sign
    → IsTold value bytes (cut_or_whole value bytes lines)
unfolding cut_or_whole
cut_or_whole-IsTold value bytes lines unmarked b l = elim (Bool-cases (ltb (length value) bytes)) [
  | inr whole ↦ rw whole (inl (refl, (ground arith, refl)))
  | inl cut ↦ rw cut (
      inr (
        refl,
        (
          ground arith,
          (
            refl,
            (
              parse-append_marker value bytes lines unmarked
                  ∙ ap (λ m. some m)
                      (same_counts bytes lines (unclamped bytes b) (unclamped lines l)),
              refl,
            ),
          ),
        ),
      ))
]
  where
    same_counts :
        (bytes lines : ℕ)
        → clamp_negative bytes ≡ bytes
        → clamp_negative lines ≡ lines
        → ◌≡◌ {A = ExecutionOutputMeta}
            (record {
              truncated = true;
              original_bytes = clamp_negative bytes;
              original_lines = clamp_negative lines;
            })
            (record { truncated = true; original_bytes = bytes; original_lines = lines })
    same_counts bytes lines b l = rw (b, l) refl

all_empty :
    (value : Text) (bytes lines : ℕ)
    → (is_empty value && nat_eq bytes 0 && nat_eq lines 0) ≡ true
    → (value ≡ []) × (bytes ≡ 0)
all_empty [] bytes lines e = (refl, ground arith)
all_empty (c ∷ value) bytes lines e = cc

normalized-IsTold :
    (value : Text) (bytes lines : ℕ)
    → contains_text value marker_prefix ≡ false
    → bytes < i64_sign
    → lines < i64_sign
    → suc (length value) < i64_sign
    → (bytes ≡ 0 → length value ≡ 0)
    → IsTold value bytes
        (normalize_log_output (record { value = value; bytes = bytes; lines = lines }))
unfolding normalize_log_output marked_or_cut
normalized-IsTold value bytes lines unmarked b l v same =
    elim (Bool-cases (is_empty value && nat_eq bytes 0 && nat_eq lines 0)) [
      | inl empty ↦
          let (no_value, no_bytes) = all_empty value bytes lines empty in
          rw empty (inl (refl, (omega (arith, no_bytes), sym no_value)))
      | inr filled ↦
          rw (filled, parse-none value unmarked)
            (subst
              (λ (n : ℕ). IsTold value n (
                cut_or_whole value (or_count bytes (length value))
                  (or_count lines (count_output_lines value))))
              counted
              (cut_or_whole-IsTold value (or_count bytes (length value))
                (or_count lines (count_output_lines value)) unmarked (ground arith)
                (ground (arith, count_output_lines-length value (omega arith)))))
    ]
  where
    counted : or_count bytes (length value) ≡ bytes
    counted = ground (arith, same)

-- The columns select the text, or an end of it.
field_end :
    (substr : ℕ → Text → Text) (limit : ℕ) (text : Text)
    → ((limit : ℕ) (s : Text) → (front : Text) × (front ++ substr limit s ≡ s))
    → (front : Text) × (front ++ (log_field substr limit text).value ≡ text)
unfolding log_field
field_end substr limit text ends = elim (Bool-cases (ltb limit (length text))) [
  | inl long ↦ rw long (ends limit text)
  | inr short ↦ rw short ([], refl)
]

whole_end :
    (front value text : Text) → front ++ value ≡ text → length text ≤ length value → value ≡ text
whole_end [] value text e h = e
whole_end (c ∷ front) value text e h =
    absurd (omega (arith, ap (λ (t : Text). length t) e, length-append {0} (c ∷ front) value))

-- What a reader is told of a text: all of it; or an end of it that is shorter, with a marker behind
-- it that gives the number of bytes of the text when it is read.
abbrev pub IsShown : Text → Text × ExecutionOutputMeta → Type 0
IsShown text (seen, meta) =
    ((meta.truncated ≡ false) × (seen ≡ text))
    ⊎ ((meta.truncated ≡ true)
        × ((front : Text) × ((kept : Text) × ((front ++ kept ≡ text)
                × ((length kept < length text)
                    × ((seen
                          ≡ append_output_truncation_marker kept (length text) meta.original_lines)
                        × ((parse_output_truncation_marker seen ≡ some meta)
                            × (meta.original_bytes ≡ length text))))))))

told-IsShown :
    (front value text : Text) (r : Text × ExecutionOutputMeta)
    → front ++ value ≡ text
    → IsTold value (length text) r
    → IsShown text r
told-IsShown front value text (seen, meta) e (inl (whole, (long, same))) =
    inl (whole, same ∙ whole_end front value text e long)
told-IsShown front value text (seen, meta) e (inr (cut, (less, told))) =
    inr (cut, (front, (value, (e, (less, told)))))

field-IsTold :
    (substr : ℕ → Text → Text) (limit : ℕ) (text : Text)
    → suc (length text) < i64_sign
    → (front : Text) → front ++ (log_field substr limit text).value ≡ text
    → contains_text (log_field substr limit text).value marker_prefix ≡ false
    → IsTold (log_field substr limit text).value (length text) (shown substr limit text)
unfolding log_field
field-IsTold substr limit text short front e unmarked =
    let value = (log_field substr limit text).value in
    let sizes = length-append {0} front value in
    let total : length (front ++ value) ≡ length text = ap (λ (t : Text). length t) e in
    normalized-IsTold value (length text) (count_newlines text) unmarked (omega arith)
      (omega (arith, count_newlines-length text)) (omega (arith, sizes, total))
      (λ empty. omega (arith, sizes, total, empty))

-- A log's text, where no marker stands in what the columns select of it, is shown whole, and as
-- whole; or a shorter end of it is shown, and as cut, with a marker behind it that gives the number
-- of the text's bytes when it is read. The database's substr gives an end of a text, and the
-- text's size plus one is an int64.
pub shown-IsShown :
    (substr : ℕ → Text → Text) (limit : ℕ) (text : Text)
    → suc (length text) < i64_sign
    → ((limit : ℕ) (s : Text) → (front : Text) × (front ++ substr limit s ≡ s))
    → contains_text (log_field substr limit text).value marker_prefix ≡ false
    → IsShown text (shown substr limit text)
shown-IsShown substr limit text short ends unmarked =
    let (front, e) = field_end substr limit text ends in
    told-IsShown front (log_field substr limit text).value text (shown substr limit text) e
      (field-IsTold substr limit text short front e unmarked)
