-- ===== src/Web/Bearer.antt =====
-- The token of requests: requireBearerToken of backend/internal/middleware/middleware.go.
use auto_restic.Shared.{
  ◌==◌, ◌||◌, ◌++◌, Bool, true, Text, Eq-Text, codes, has_prefix, if◌then◌else◌,
}

pub record Request : Type 0 where
  pub method : Text
  pub path : Text
  pub authorization : Text
  pub origin : Text
  -- the parameter `id` of the path and `ticket` of the query
  pub id : Text
  pub ticket : Text

-- what a request is let through without its token for
unfoldable pub is_open : Request → Bool
unfolding has_prefix
is_open r =
    (r.method == codes "OPTIONS") || (r.path == codes "/health") || has_prefix r.path (codes "/ws/")

-- Whether the request goes on.
unfoldable pub require_bearer_token : Text → Request → Bool
unfolding is_open
require_bearer_token token r =
    if is_open r then true else r.authorization == codes "Bearer " ++ token
