-- ===== src/Web/Tickets.antt =====
-- Tickets for WebSocket connections: backend/internal/handler/ws_handler.go.
pub mod Sound
pub mod RoundTrip
use auto_restic.Shared.{
  ◌≡◌, ◌<◌, ◌+◌, ◌*◌, ◌/◌, ◌==◌, ◌&&◌, ◌||◌, ◌++◌, not, ℕ, ℤ, int_eq, ltb, Bool, true, false, List,
  [], ◌∷◌, Option, none, some, Text, Eq-Text, codes, is_empty, split_at, length, All, IsByte,
  base64_encode, base64_decode, if◌then◌else◌,
}
use auto_restic.Exec.{Result, ok, err}
use auto_restic.Web.{parse_origins, is_among, solid_parts}
use auto_restic.Web.Params.{parse_int}
use auto_restic.Web.Bearer.{Request}

pub record TicketPayload : Type 0 where
  pub execution_id : ℤ
  -- in seconds
  pub expires_at : ℕ
  pub nonce : Text

-- HMAC-SHA256 under the secret of the handler, and encoding/json on payloads.
pub record Signing : Type 0 where
  pub sign : Text → Text
  pub marshal : TicketPayload → Text
  pub unmarshal : Text → Option TicketPayload

-- What is relied on: a digest has bytes, and not none; and a payload is read as it was written.
pub record IsSigning (g : Signing) : Type 0 where
  pub sign_bytes : (s : Text) → All IsByte (g.sign s)
  pub sign_filled : (s : Text) → 0 < length (g.sign s)
  pub marshal_bytes : (p : TicketPayload) → All IsByte (g.marshal p)
  pub marshal_filled : (p : TicketPayload) → 0 < length (g.marshal p)
  pub reads :
      (execution_id : ℤ) (expires_at : ℕ) (nonce : Text)
      → All IsByte nonce
      → g.unmarshal (
          g.marshal (record {
            execution_id = execution_id;
            expires_at = expires_at;
            nonce = base64_encode nonce;
          }))
        ≡ some (record {
          execution_id = execution_id;
          expires_at = expires_at;
          nonce = base64_encode nonce;
        })

pub record WsHandler : Type 0 where
  pub auth_token : Text
  pub allow_origins : List Text
  pub signing : Signing

-- NewWsHandler, with the origins of the configuration
unfoldable pub new_ws_handler : Text → Text → Signing → WsHandler
unfolding split_at
new_ws_handler auth_token origins signing = record {
  auth_token = auth_token;
  allow_origins = solid_parts (split_at 44 origins);
  signing = signing;
}

-- times are in nanoseconds, from 1970 on
abbrev pub second : ℕ
second = 1000000000

abbrev pub ws_ticket_ttl : ℕ
ws_ticket_ttl = 60 * second

abbrev pub unix : ℕ → ℕ
unix time = time / second

abbrev pub no_parts : List Text → Bool
no_parts [] = true
no_parts (_ ∷ _) = false

unfoldable pub payload_accepted : ℤ → ℕ → Option TicketPayload → Bool
payload_accepted execution_id now none = false
payload_accepted execution_id now (some p) =
    int_eq p.execution_id execution_id && ltb (unix now) p.expires_at && not (is_empty p.nonce)

-- hmac.Equal, where both can be decoded
unfoldable pub same_signature : Option Text → Option Text → Bool
same_signature (some signature) (some expected) = signature == expected
same_signature _ _ = false

module _ (h : WsHandler) where
  unfoldable pub origin_allowed : Text → Bool
  origin_allowed origin =
      is_empty origin
      || is_empty h.auth_token
      || no_parts h.allow_origins
      || is_among origin h.allow_origins

  unfoldable pub sign_ticket_payload : Text → Text
  unfolding base64_encode
  sign_ticket_payload encoded = base64_encode (h.signing.sign encoded)

  -- `nonce` is what rand.Read gives.
  unfoldable pub issue_ticket : ℤ → ℕ → Result Text → Result (Text × ℕ)
  unfolding sign_ticket_payload
  issue_ticket execution_id now (err e) = err e
  issue_ticket execution_id now (ok nonce) =
      let expires_at = now + ws_ticket_ttl in
      let payload : TicketPayload = record {
        execution_id = execution_id;
        expires_at = unix expires_at;
        nonce = base64_encode nonce;
      } in
      let encoded = base64_encode (h.signing.marshal payload) in
      ok (encoded ++ 46 ∷ sign_ticket_payload encoded, expires_at)

  unfoldable pub bytes_accepted : ℤ → ℕ → Option Text → Bool
  unfolding payload_accepted
  bytes_accepted execution_id now none = false
  bytes_accepted execution_id now (some bytes) =
      payload_accepted execution_id now (h.signing.unmarshal bytes)

  unfoldable pub parts_accepted : ℤ → ℕ → List Text → Bool
  unfolding same_signature bytes_accepted sign_ticket_payload base64_decode
  parts_accepted execution_id now (payload ∷ signature ∷ []) =
      not (is_empty payload)
      && not (is_empty signature)
      && same_signature (base64_decode signature) (base64_decode (sign_ticket_payload payload))
      && bytes_accepted execution_id now (base64_decode payload)
  parts_accepted execution_id now _ = false

  unfoldable pub validate_ticket : Text → ℤ → ℕ → Bool
  unfolding parts_accepted split_at
  validate_ticket ticket execution_id now = parts_accepted execution_id now (split_at 46 ticket)

-- what a request for a WebSocket gets
pub data WsAnswer : Type 0 where
  forbidden bad_request unauthorized upgrade_failed : WsAnswer
  -- hub.Register
  registered : (execution_id : ℤ) → WsAnswer

module _ (h : WsHandler) (now : ℕ) (upgrades : Bool) where
  unfoldable pub answer_id : Text → Option ℤ → WsAnswer
  unfolding validate_ticket
  answer_id ticket none = bad_request
  answer_id ticket (some id) =
      if validate_ticket h ticket id now
      then (if upgrades then registered id else upgrade_failed)
      else unauthorized

  unfoldable pub handle_ws : Request → WsAnswer
  unfolding origin_allowed answer_id parse_int
  handle_ws r = if origin_allowed h r.origin then answer_id r.ticket (parse_int r.id) else forbidden
