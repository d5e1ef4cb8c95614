-- ===== src/Web/Tickets/Sound.antt =====
-- What a request for a WebSocket needs: backend/internal/handler/ws_handler.go.
use auto_restic.Shared.{
  ◌≡◌, ◌&&◌, not, refl, ap, subst, inl, inr, ℕ, ℤ, int_eq, ltb, Bool, true, false, List, [], ◌∷◌,
  Option, none, some, Text, Eq-Text, is_empty, split_at, base64_decode, Bool-cases, if◌then◌else◌,
}
use auto_restic.Web.Params.{parse_int}
use auto_restic.Web.Bearer.{Request}
use auto_restic.Web.Tickets.{
  TicketPayload, WsHandler, unix, sign_ticket_payload, payload_accepted, bytes_accepted,
  same_signature, parts_accepted, validate_ticket, origin_allowed, registered, upgrade_failed,
  answer_id, handle_ws,
}

-- A ticket with a payload that is signed, for this execution, and not expired.
pub record IsTicket (h : WsHandler) (ticket : Text) (id : ℤ) (now : ℕ) : Type 0 where
  pub encoded : Text
  pub signature : Text
  pub bytes : Text
  pub payload : TicketPayload
  pub parts : split_at 46 ticket ≡ encoded ∷ signature ∷ []
  pub signed :
      same_signature (base64_decode signature) (base64_decode (sign_ticket_payload h encoded))
      ≡ true
  pub decoded : base64_decode encoded ≡ some bytes
  pub read : h.signing.unmarshal bytes ≡ some payload
  pub for_execution : int_eq payload.execution_id id ≡ true
  pub in_time : ltb (unix now) payload.expires_at ≡ true

and_both : (a b : Bool) → (a && b) ≡ true → (a ≡ true) × (b ≡ true)
and_both true b e = (refl, e)
and_both false b e = cc

module _ (h : WsHandler) (ticket : Text) (id : ℤ) (now : ℕ) where
  -- from the parts on
  parts-IsTicket :
      (parts : List Text)
      → split_at 46 ticket ≡ parts
      → parts_accepted h id now parts ≡ true
      → IsTicket h ticket id now
  unfolding parts_accepted bytes_accepted payload_accepted
  parts-IsTicket [] e v = cc
  parts-IsTicket (encoded ∷ []) e v = cc
  parts-IsTicket (encoded ∷ signature ∷ c ∷ more) e v = cc
  parts-IsTicket (encoded ∷ signature ∷ []) e v =
      let (signed, read) =
        and_both
          (not (is_empty encoded)
            && not (is_empty signature)
            && same_signature (base64_decode signature)
                (base64_decode (sign_ticket_payload h encoded)))
          (bytes_accepted h id now (base64_decode encoded)) v in
      in_bytes
        (and_both (not (is_empty encoded) && not (is_empty signature))
          (same_signature (base64_decode signature) (base64_decode (sign_ticket_payload h encoded)))
          signed).1
        (base64_decode encoded) refl read
    where
      in_payload :
          same_signature (base64_decode signature) (base64_decode (sign_ticket_payload h encoded))
            ≡ true
          → (bytes : Text) → base64_decode encoded ≡ some bytes
          → (p : Option TicketPayload) → h.signing.unmarshal bytes ≡ p
          → payload_accepted id now p ≡ true
          → IsTicket h ticket id now
      in_payload signed bytes decoded none read v = cc
      in_payload signed bytes decoded (some p) read v =
          let both = int_eq p.execution_id id && ltb (unix now) p.expires_at in
          let (timely, named) = and_both both (not (is_empty p.nonce)) v in
          let (ours, in_time) =
            and_both (int_eq p.execution_id id) (ltb (unix now) p.expires_at) timely in
          record {
            encoded = encoded;
            signature = signature;
            bytes = bytes;
            payload = p;
            parts = e;
            signed = signed;
            decoded = decoded;
            read = read;
            for_execution = ours;
            in_time = in_time;
          }

      in_bytes :
          same_signature (base64_decode signature) (base64_decode (sign_ticket_payload h encoded))
            ≡ true
          → (bytes : Option Text) → base64_decode encoded ≡ bytes
          → bytes_accepted h id now bytes ≡ true
          → IsTicket h ticket id now
      in_bytes signed none decoded v = cc
      in_bytes signed (some bytes) decoded v =
          in_payload signed bytes decoded (h.signing.unmarshal bytes) refl v

  validate-IsTicket : validate_ticket h ticket id now ≡ true → IsTicket h ticket id now
  unfolding validate_ticket
  validate-IsTicket v = parts-IsTicket (split_at 46 ticket) refl v

-- A connection is registered with the hub only for an execution that the path names, from an origin
-- that is allowed, and with a ticket that is signed, for this execution, and not expired.
pub handle_ws-registered :
    (h : WsHandler) (now : ℕ) (upgrades : Bool) (r : Request) (id : ℤ)
    → handle_ws h now upgrades r ≡ registered id
    → (parse_int r.id ≡ some id) × ((origin_allowed h r.origin ≡ true) × IsTicket h r.ticket id now)
unfolding handle_ws
handle_ws-registered h now upgrades r id e = elim (Bool-cases (origin_allowed h r.origin)) [
  | inr foreign ↦ cc (rw foreign at e)
  | inl allowed ↦
      let (found, ticket) = from_id (parse_int r.id) (rw allowed at e) in (found, (allowed, ticket))
]
  where
    from_id :
        (v : Option ℤ)
        → answer_id h now upgrades r.ticket v ≡ registered id
        → (v ≡ some id) × IsTicket h r.ticket id now
    from_id none e = cc
    from_id (some x) e = elim (Bool-cases (validate_ticket h r.ticket x now)) [
      | inr refused ↦ cc (rw refused at e)
      | inl accepted ↦
          let same = upgraded upgrades (rw accepted at e) in
          (
            ap some same,
            subst (λ (y : ℤ). IsTicket h r.ticket y now) same
                (validate-IsTicket h r.ticket x now accepted),
          )
    ]
      where
        upgraded :
            {x id : ℤ} (b : Bool)
            → (if b then registered x else upgrade_failed) ≡ registered id
            → x ≡ id
        upgraded true e = cc
        upgraded false e = cc
