-- ===== src/Output/Marker/Ends.antt =====
-- Whether a text ends its last line, and the text that does.
use auto_restic.Shared.{
  ℕ, ◌≡◌, refl, ◌⊎◌, inl, inr, true, false, [], ◌∷◌, ◌++◌, arith, Text, is_empty, append_assoc,
  Bool-cases,
}
use auto_restic.Output.Marker.{newline, ends_line, end_line}

pub ends_line-append : (s t : Text) → is_empty t ≡ false → ends_line (s ++ t) ≡ ends_line t
unfolding ends_line
ends_line-append [] t h = refl
ends_line-append (c ∷ []) [] h = cc
ends_line-append (c ∷ []) (d ∷ t) h = refl
ends_line-append (c ∷ d ∷ s) t h = ends_line-append (d ∷ s) t h

pub end_line-append : (s t : Text) → is_empty t ≡ false → end_line (s ++ t) ≡ s ++ end_line t
end_line-append [] t h = refl
end_line-append (c ∷ s) t h =
    let ends = ends_line-append (c ∷ s) t h in
    elim (Bool-cases (ends_line t)) [
      | inl e ↦ rw (ends, e, h) refl
      | inr e ↦ rw (ends, e, h) (append_assoc (c ∷ s) t (newline ∷ []))
    ]

pub end_line-newline : (s : Text) → end_line (newline ∷ s) ≡ newline ∷ end_line s
unfolding ends_line
end_line-newline [] = refl
end_line-newline (c ∷ s) = ground arith

pub ends_line-cons :
    (c : ℕ) (s : Text) → ends_line (c ∷ s) ≡ true → (is_empty s ≡ true) ⊎ (ends_line s ≡ true)
unfolding ends_line
ends_line-cons c [] h = inl refl
ends_line-cons c (d ∷ s) h = inr h

-- `end_line` of a text is empty, or ends its last line.
pub end_line-ends : (s : Text) → (is_empty (end_line s) ≡ true) ⊎ (ends_line (end_line s) ≡ true)
unfolding ends_line
end_line-ends [] = inl refl
end_line-ends (c ∷ s) = elim (Bool-cases (ends_line (c ∷ s))) [
  | inl e ↦ inr (rw (e) e)
  | inr e ↦ inr (rw (e) (ends_line-append (c ∷ s) (newline ∷ []) refl))
]
