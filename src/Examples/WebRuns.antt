-- ===== src/Examples/WebRuns.antt =====
-- Tickets and the token, with a signature that is the same for all texts:
-- backend/internal/handler/ws_handler.go and backend/internal/middleware/middleware.go.
use auto_restic.Shared.{
  ◌+◌, ◌*◌, ◌≡◌, ◌<◌, ◌&&◌, ◌==◌, refl, ap, ℕ, zero, suc, ℤ, pos, negsuc, int_eq, ltb, true, false,
  [], ◌∷◌, Option, none, some, Text, Eq-Text, codes, arith, length, has_prefix, if◌then◌else◌,
  base64_encode, Bool-cases, inl, inr,
}
use auto_restic.Exec.{ok, err}
use auto_restic.Web.Bearer.{Request}
use auto_restic.Web.Tickets.{
  TicketPayload, Signing, IsSigning, WsHandler, unix, issue_ticket, validate_ticket,
}
use auto_restic.Web.Tickets.RoundTrip.{validate-issue}
use auto_restic.Web.Server.{Route, api, no_route, serve, IsAdmitted, serve-IsAdmitted}
use auto_restic.Examples.SaveRuns.{
  sealed, opened_from, opened-sealed, sealed-bytes, nonce, nonce-bytes,
}

abbrev sign_of : ℤ → ℕ
sign_of (pos n) = 0
sign_of (negsuc n) = 1

abbrev size_of : ℤ → ℕ
size_of (pos n) = n
size_of (negsuc n) = n

abbrev written : TicketPayload → Text
written p = sealed (sign_of p.execution_id ∷ size_of p.execution_id ∷ p.expires_at ∷ p.nonce)

abbrev to_int : ℕ → ℕ → ℤ
to_int zero n = pos n
to_int (suc _) n = negsuc n

abbrev payload_of : Option Text → Option TicketPayload
payload_of (some (s ∷ n ∷ t ∷ nonce)) =
    some (record { execution_id = to_int s n; expires_at = t; nonce = nonce })
payload_of _ = none

abbrev toy_signing : Signing
toy_signing = record {
  sign = λ s. 7 ∷ [];
  marshal = written;
  unmarshal = λ s. payload_of (opened_from 0 s);
}

written-read :
    (id : ℤ) (expires_at : ℕ) (nonce : Text)
    → payload_of (
        opened_from 0
          (written (record { execution_id = id; expires_at = expires_at; nonce = nonce })))
      ≡ some (record { execution_id = id; expires_at = expires_at; nonce = nonce })
written-read (pos n) expires_at nonce = ap payload_of (opened-sealed (0 ∷ n ∷ expires_at ∷ nonce))
written-read (negsuc n) expires_at nonce =
    ap payload_of (opened-sealed (1 ∷ n ∷ expires_at ∷ nonce))

written-filled :
    (id : ℤ) (expires_at : ℕ) (nonce : Text)
    → 0 < length (written (record { execution_id = id; expires_at = expires_at; nonce = nonce }))
written-filled (pos n) expires_at nonce = omega arith
written-filled (negsuc n) expires_at nonce = omega arith

toy-IsSigning : IsSigning toy_signing
toy-IsSigning = record {
  sign_bytes = λ s. (omega arith, tt);
  sign_filled = λ s. omega arith;
  marshal_bytes =
      λ p. sealed-bytes (sign_of p.execution_id ∷ size_of p.execution_id ∷ p.expires_at ∷ p.nonce);
  marshal_filled = λ p. written-filled p.execution_id p.expires_at p.nonce;
  reads = λ id expires_at n bytes. written-read id expires_at (base64_encode n);
}

abbrev ws_handler : WsHandler
ws_handler = record { auth_token = codes "secret"; allow_origins = []; signing = toy_signing }

-- in the second 5
abbrev now : ℕ
now = 5 * 1000000000 + 1

abbrev issued : Text × ℕ
issued = elim (issue_ticket ws_handler (pos 3) now (ok nonce)) [ ok v ↦ v | err e ↦ ([], 0) ]

issued_lem : issue_ticket ws_handler (pos 3) now (ok nonce) ≡ ok issued
unfolding issue_ticket
issued_lem = refl

validate-issue_example :
    validate_ticket ws_handler issued.0 (pos 3) (now + 60 * 1000000000)
    ≡ int_eq (pos 3) (pos 3) && ltb (unix (now + 60 * 1000000000)) (unix now + 60)
validate-issue_example =
    validate-issue ws_handler nonce (pos 3) (pos 3) now (now + 60 * 1000000000) issued.0 issued.1
      toy-IsSigning nonce-bytes (omega arith) issued_lem

abbrev route : Request → Route
route r =
    if has_prefix r.path (codes "/api/v1/")
    then (if r.method == codes "OPTIONS" then no_route else api)
    else no_route

route_lem :
    (r : Request)
    → route r ≡ api
    → (has_prefix r.path (codes "/api/v1/") ≡ true) × ((r.method == codes "OPTIONS") ≡ false)
route_lem r e = elim (Bool-cases (has_prefix r.path (codes "/api/v1/"))) [
  | inr elsewhere ↦ cc (rw elsewhere at e)
  | inl below ↦ elim (Bool-cases (r.method == codes "OPTIONS")) [
    | inl options ↦ cc (rw (below, options) at e)
    | inr other ↦ (below, other)
  ]
]

abbrev list_tasks : Request
list_tasks = record {
  method = codes "GET";
  path = codes "/api/v1/tasks";
  authorization = codes "Bearer secret";
  origin = [];
  id = [];
  ticket = [];
}

serve-IsAdmitted_example :
    IsAdmitted route ws_handler now true list_tasks (serve route ws_handler now true list_tasks)
serve-IsAdmitted_example = serve-IsAdmitted route ws_handler now true route_lem refl list_tasks
