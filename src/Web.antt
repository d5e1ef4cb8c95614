-- ===== src/Web.antt =====
-- Requests: backend/internal/middleware/middleware.go, backend/internal/handler/params.go and
-- backend/internal/handler/ws_handler.go.
pub mod Params
pub mod Bearer
pub mod Tickets
pub mod Server
use auto_restic.Shared.{
  ◌==◌, List, [], ◌∷◌, Text, Eq-Text, Bool, true, false, is_empty, trim_space, split_at,
  if◌then◌else◌, ◌≡◌, refl, ◌||◌,
}

-- the parts of a text between commas, trimmed, without those that are empty
abbrev pub solid_parts : List Text → List Text
solid_parts [] = []
solid_parts (part ∷ parts) =
    let rest = solid_parts parts in
    if is_empty (trim_space part) then rest else trim_space part ∷ rest

unfoldable pub parse_origins : Text → List Text
unfolding split_at trim_space
parse_origins value = if is_empty value then [] else solid_parts (split_at 44 value)

abbrev pub is_among : Text → List Text → Bool
is_among s [] = false
is_among s (t ∷ ts) = (s == t) || is_among s ts
