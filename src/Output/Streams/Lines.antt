-- ===== src/Output/Streams/Lines.antt =====
-- The lines of one stream: readStream of backend/internal/executor/executor.go.
use auto_restic.Shared.{
  ℕ, ◌≡◌, refl, sym, ap, ◌∙◌, ◌⊎◌, Bool, true, false, List, [], ◌∷◌, ◌++◌, Text, nat_eq, nat_eq_iff,
  append_assoc, append-nil, Bool-cases, inl, inr,
}
use auto_restic.Output.Marker.{newline, ends_line, end_line}
use auto_restic.Output.Marker.Ends.{ends_line-append, end_line-append, end_line-newline}
use auto_restic.Output.Streams.{normalized, read_lines}

-- The text of the lines, each ended by a newline.
abbrev pub line_text : List (Text × Bool) → Text
line_text [] = []
line_text (l ∷ ls) = normalized l.0 l.1 ++ line_text ls

-- One character of the input, given what the rest of it reads as.
read_char-text :
    (line : Text) (c : ℕ) (s : Text)
    → line_text (read_lines [] s) ≡ end_line s
    → (ends_line (line ++ c ∷ []) ≡ false
        → line_text (read_lines (line ++ c ∷ []) s) ≡ end_line ((line ++ c ∷ []) ++ s))
    → (nat_eq c newline ≡ true) ⊎ (nat_eq c newline ≡ false)
    → line_text (read_lines line (c ∷ s)) ≡ end_line (line ++ c ∷ s)
unfolding read_lines ends_line
read_char-text line c s ended within (inl e) =
    let is_newline : c ≡ newline = (nat_eq_iff c newline).0 e in
    rw (e, read_lines)
      (ap (λ t. (line ++ newline ∷ []) ++ t) ended
        ∙ append_assoc line (newline ∷ []) (end_line s)
        ∙ ap (λ t. line ++ t) (sym (ap (λ d. end_line (d ∷ s)) is_newline ∙ end_line-newline s))
        ∙ sym (end_line-append line (c ∷ s) refl))
read_char-text line c s ended within (inr e) =
    rw (e, read_lines)
      (within (ends_line-append line (c ∷ []) refl ∙ e)
        ∙ ap end_line (append_assoc line (c ∷ []) s))

-- The lines that are read spell the input: only a last line without a newline gets one.
pub read_lines-text :
    (line s : Text) → ends_line line ≡ false → line_text (read_lines line s) ≡ end_line (line ++ s)
unfolding read_lines ends_line
read_lines-text [] [] h = refl
read_lines-text (c ∷ l) [] h = simp (append-nil, h)
read_lines-text line (c ∷ s) h =
    read_char-text line c s (read_lines-text [] s refl) (read_lines-text (line ++ c ∷ []) s)
      (Bool-cases (nat_eq c newline))
