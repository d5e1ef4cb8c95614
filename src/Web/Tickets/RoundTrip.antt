-- ===== src/Web/Tickets/RoundTrip.antt =====
-- Tickets that are issued, when they are used: backend/internal/handler/ws_handler.go.
use auto_restic.Shared.{
  ◌≡◌, ◌<◌, ◌+◌, ◌&&◌, ◌++◌, refl, ap, ◌∙◌, sym, ℕ, ℤ, int_eq, ltb, Bool, true, false, [], ◌∷◌,
  some, Text, Eq-Text, split_at, split_at-append, split_at-none, length, All, IsByte, base64_encode,
  base64_decode-encode, base64_encode-IsNoDot, is_empty-base64_encode, text_eq_iff, arith,
}
use auto_restic.Exec.{ok, ok_inj}
use auto_restic.Web.Tickets.{
  TicketPayload, IsSigning, WsHandler, ws_ticket_ttl, unix, sign_ticket_payload, issue_ticket,
  payload_accepted, bytes_accepted, same_signature, parts_accepted, validate_ticket,
}

module _ (h : WsHandler) (g : IsSigning h.signing) where
  -- what is made of a payload
  encoded : TicketPayload → Text
  encoded p = base64_encode (h.signing.marshal p)

  signature : TicketPayload → Text
  unfolding encoded
  signature p = sign_ticket_payload h (encoded p)

  parts_lem :
      (p : TicketPayload)
      → split_at 46 (encoded p ++ 46 ∷ signature p) ≡ encoded p ∷ signature p ∷ []
  unfolding encoded signature sign_ticket_payload
  parts_lem p =
      split_at-append 46 (encoded p) (signature p) (base64_encode-IsNoDot _ (g.marshal_bytes p))
      ∙ ap (λ parts. encoded p ∷ parts)
          (split_at-none 46 (signature p) (base64_encode-IsNoDot _ (g.sign_bytes (encoded p))))

  same_lem : (s : Text) → same_signature (some s) (some s) ≡ true
  unfolding same_signature
  same_lem s = (text_eq_iff s s).1 refl

  accepted_lem :
      (p : TicketPayload) (execution_id : ℤ) (now : ℕ)
      → parts_accepted h execution_id now (encoded p ∷ signature p ∷ [])
        ≡ payload_accepted execution_id now (h.signing.unmarshal (h.signing.marshal p))
  unfolding parts_accepted encoded signature sign_ticket_payload bytes_accepted
  accepted_lem p execution_id now =
      rw
        (
          is_empty-base64_encode (h.signing.marshal p) (g.marshal_filled p),
          is_empty-base64_encode (h.signing.sign (encoded p)) (g.sign_filled (encoded p)),
          base64_decode-encode (h.signing.sign (encoded p)) (g.sign_bytes (encoded p)),
          same_lem (h.signing.sign (encoded p)),
          base64_decode-encode (h.signing.marshal p) (g.marshal_bytes p),
        )
        refl

and_true : (a b : Bool) → (a && b && true) ≡ (a && b)
and_true true true = refl
and_true true false = refl
and_true false b = refl

-- A ticket that is issued is accepted for its execution alone, and for the 60 seconds behind the
-- second in which it was issued.
pub validate-issue :
    (h : WsHandler) (nonce : Text) (id other : ℤ) (now later : ℕ) (ticket : Text) (expires_at : ℕ)
    → IsSigning h.signing
    → All IsByte nonce
    → 0 < length nonce
    → issue_ticket h id now (ok nonce) ≡ ok (ticket, expires_at)
    → validate_ticket h ticket other later ≡ int_eq id other && ltb (unix later) (unix now + 60)
unfolding issue_ticket encoded signature validate_ticket
validate-issue h nonce id other now later ticket expires_at g bytes filled issued =
    ap (λ t. parts_accepted h other later (split_at 46 t)) (sym same)
    ∙ ap (parts_accepted h other later) (parts_lem h g payload)
    ∙ accepted_lem h g payload other later
    ∙ ap (payload_accepted other later) (g.reads id (unix (now + ws_ticket_ttl)) nonce bytes)
    ∙ in_time
  where
    payload : TicketPayload
    payload = record {
      execution_id = id;
      expires_at = unix (now + ws_ticket_ttl);
      nonce = base64_encode nonce;
    }

    same : encoded h g payload ++ 46 ∷ signature h g payload ≡ ticket
    same = ap (λ (x : Text × ℕ). x.0) (ok_inj issued)

    a_minute : unix (now + ws_ticket_ttl) ≡ unix now + 60
    a_minute = omega arith

    in_time :
        payload_accepted other later (some payload)
        ≡ int_eq id other && ltb (unix later) (unix now + 60)
    in_time =
        rw (is_empty-base64_encode nonce filled, a_minute)
          (and_true (int_eq id other) (ltb (unix later) (unix now + 60)))
