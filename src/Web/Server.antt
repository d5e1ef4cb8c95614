-- ===== src/Web/Server.antt =====
-- What a request comes to: SetupMiddleware of backend/internal/middleware/middleware.go, and the
-- routes of backend/main.go. Requests of other origins, which gin-contrib/cors answers, are left out.
use auto_restic.Shared.{
  some, ◌≡◌, ◌==◌, ◌++◌, refl, inl, inr, ℕ, Bool, true, false, [], ◌∷◌, Text, Eq-Text, codes,
  has_prefix, is_empty, if◌then◌else◌, Bool-cases, text_eq, text_eq_iff, arith,
}
use auto_restic.Web.Params.{parse_int}
use auto_restic.Web.Bearer.{Request, is_open, require_bearer_token}
use auto_restic.Web.Tickets.{
  WsHandler, WsAnswer, registered, forbidden, bad_request, unauthorized, upgrade_failed,
  origin_allowed, handle_ws,
}
use auto_restic.Web.Tickets.Sound.{IsTicket, handle_ws-registered}

-- the handler that gin finds for a request
pub data Route : Type 0 where
  health api ws no_route : Route

pub data Answer : Type 0 where
  refused healthy not_found : Answer
  -- a handler below /api/v1 is called
  handled : Answer
  connected : WsAnswer → Answer

module _ (route : Request → Route) (h : WsHandler) (now : ℕ) (upgrades : Bool) where
  call : Request → Route → Answer
  unfolding handle_ws
  call r health = healthy
  call r api = handled
  call r ws = connected (handle_ws h now upgrades r)
  call r no_route = not_found

  -- The token is that of the handler of WebSockets.
  unfoldable pub serve : Request → Answer
  unfolding call require_bearer_token
  serve r =
      if is_empty h.auth_token
      then call r (route r)
      else if require_bearer_token h.auth_token r
      then call r (route r)
      else refused

  -- what a request may come to, and what it has then
  abbrev pub IsAdmitted : Request → Answer → Type 0
  IsAdmitted r handled = r.authorization ≡ codes "Bearer " ++ h.auth_token
  IsAdmitted r (connected (registered id)) =
      (parse_int r.id ≡ some id) × ((origin_allowed h r.origin ≡ true) × IsTicket h r.ticket id now)
  IsAdmitted r _ = Unit

api_not_health :
    (path : Text)
    → has_prefix path (codes "/api/v1/") ≡ true
    → text_eq path (codes "/health") ≡ false
unfolding has_prefix text_eq
api_not_health [] below = refl
api_not_health (a ∷ []) below = ground arith
api_not_health (a ∷ b ∷ path) below = ground arith

api_not_ws :
    (path : Text)
    → has_prefix path (codes "/api/v1/") ≡ true
    → has_prefix path (codes "/ws/") ≡ false
unfolding has_prefix
api_not_ws [] below = refl
api_not_ws (a ∷ []) below = ground arith
api_not_ws (a ∷ b ∷ path) below = ground arith

-- Below /api/v1/ no path is open.
api_closed :
    (r : Request)
    → has_prefix r.path (codes "/api/v1/") ≡ true
    → (r.method == codes "OPTIONS") ≡ false
    → is_open r ≡ false
unfolding is_open
api_closed r below method = rw (method, api_not_health r.path below, api_not_ws r.path below) refl

-- A server that has a token calls a handler of the API only for a request that carries it, and
-- registers a connection only for one with a ticket that is signed, for its execution, and not
-- expired, as long as gin routes the API's paths alone, and no OPTIONS, to the API.
pub serve-IsAdmitted :
    (route : Request → Route) (h : WsHandler) (now : ℕ) (upgrades : Bool)
    → ((r : Request)
        → route r ≡ api
        → (has_prefix r.path (codes "/api/v1/") ≡ true) × ((r.method == codes "OPTIONS") ≡ false))
    → is_empty h.auth_token ≡ false
    → (r : Request) → IsAdmitted route h now upgrades r (serve route h now upgrades r)
unfolding serve call
serve-IsAdmitted route h now upgrades api_below has_token r =
    elim (Bool-cases (require_bearer_token h.auth_token r)) [
      | inr stopped ↦ rw (has_token, stopped) tt
      | inl passed ↦ rw (has_token, passed) (called (route r) refl passed)
    ]
  where
    from_ws :
        (v : WsAnswer)
        → handle_ws h now upgrades r ≡ v
        → IsAdmitted route h now upgrades r (connected v)
    from_ws (registered id) e = handle_ws-registered h now upgrades r id e
    from_ws forbidden e = tt
    from_ws bad_request e = tt
    from_ws unauthorized e = tt
    from_ws upgrade_failed e = tt

    called :
        (v : Route)
        → route r ≡ v
        → require_bearer_token h.auth_token r ≡ true
        → IsAdmitted route h now upgrades r (call route h now upgrades r v)
    called health e passed = tt
    called no_route e passed = tt
    called ws e passed = from_ws (handle_ws h now upgrades r) refl
    called api e passed =
        let (below, method) = api_below r e in
        (text_eq_iff r.authorization (codes "Bearer " ++ h.auth_token)).0
          (rw (api_closed r below method, require_bearer_token) at passed)
