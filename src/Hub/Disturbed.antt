-- ===== src/Hub/Disturbed.antt =====
-- A client that is removed between two sends of a broadcast: backend/internal/ws/hub.go.
use auto_restic.Shared.{
  [], ◌++◌, Option, nat_eq_iff, ◌∙◌, ℕ, ◌≡◌, refl, ap, ◌∙◌, true, false, List, ◌∷◌, none, some,
  arith, Eq-ℕ, lookup,
}
use auto_restic.Hub.{
  new_serving, Event, run, Hub, or_empty, remove_client, send_message, Serving, send_next,
  remove_next, take_out, with_hub, sends, removes, step,
}
use auto_restic.Hub.Clients.{removed, remove_client_found}

closed_send :
    (h : Hub) (execution_id conn channel : ℕ)
    → lookup conn (or_empty (lookup execution_id h.clients)) ≡ some channel
    → (h.channels channel).closed ≡ false
    → (t : Hub) × ((remove_client h execution_id conn ≡ some t)
        × ((t.channels channel).closed ≡ true))
closed_send h execution_id conn channel found o = (
  removed h execution_id conn channel,
  (
    remove_client_found h execution_id conn channel found o,
    ground (arith, nat_eq_iff channel channel),
  ),
)

send_closed :
    (s : Serving) (conn channel : ℕ) (rest : List (ℕ × ℕ))
    → (s.hub.channels channel).closed ≡ true
    → send_next s ((conn, channel) ∷ rest) ≡ none
unfolding send_next send_message
send_closed s conn channel rest closed = rw closed refl

run-append :
    (s : Serving) (es fs : List Event) (t : Serving)
    → run s es ≡ some t
    → run s (es ++ fs) ≡ run t fs
unfolding run
run-append s [] fs t e = let same : s ≡ t = cc in ap (λ u. run u fs) same
run-append s (v ∷ es) fs t e = go (step s v) (λ u. run-append u es fs t) e
  where
    go :
        (o : Option Serving)
        → ((u : Serving) → run u es ≡ some t → run u (es ++ fs) ≡ run t fs)
        → elim o [ none ↦ none | some u ↦ run u es ] ≡ some t
        → elim o [ none ↦ none | some u ↦ run u (es ++ fs) ] ≡ run t fs
    go none rest h = cc
    go (some u) rest h = rest u h

-- Where events have led to a state in which a broadcast is still to be sent to a registered client
-- with an open channel, and a goroutine is about to remove that client, because a write to it failed
-- or an earlier message found its channel full, the removal may come first: it closes the channel,
-- and then the next send of the broadcast is one on a closed channel, a panic of the program.
pub removed_while_sending_panics :
    (es : List Event) (s : Serving) (conn channel n : ℕ) (rest left : List (ℕ × ℕ))
    → run new_serving es ≡ some s
    → s.pending ≡ (conn, channel) ∷ rest
    → take_out n s.removals ≡ some ((s.message.execution_id, conn), left)
    → lookup conn (or_empty (lookup s.message.execution_id s.hub.clients)) ≡ some channel
    → (s.hub.channels channel).closed ≡ false
    → run new_serving (es ++ removes n ∷ sends ∷ []) ≡ none
unfolding run step remove_next
removed_while_sending_panics es s conn channel n rest left reached next taken found o =
    let (h, (removed, closed)) = closed_send s.hub s.message.execution_id conn channel found o in
    let t : Serving = record s { hub = h; removals = left } in
    let removal : step s (removes n) ≡ some t =
      ap (remove_next s) taken ∙ ap (with_hub (record s { removals = left })) removed in
    let send : step t sends ≡ none =
      ap (send_next t) next ∙ send_closed t conn channel rest closed in
    run-append new_serving es (removes n ∷ sends ∷ []) s reached
    ∙ ap (λ (v : Option Serving). elim v [ none ↦ none | some u ↦ run u (sends ∷ []) ]) removal
    ∙ ap (λ (v : Option Serving). elim v [ none ↦ none | some u ↦ run u [] ]) send
