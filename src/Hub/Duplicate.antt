-- ===== src/Hub/Duplicate.antt =====
-- A connection that is registered for an execution twice: Run of backend/internal/ws/hub.go.
use auto_restic.Shared.{ℕ, ◌≡◌, true, false, none, some, arith, Eq-ℕ, lookup, insert, lookup-insert}
use auto_restic.Hub.{
  Message, Hub, or_empty, set_channel, close, register, remove_client, send_message,
}

-- A second registration closes the channel of the client and leaves the client in the map. Then
-- the next send to it is one on a closed channel, and the removal of the client, or a third
-- registration, closes it again: each of the three panics.
register_twice_panics :
    (h : Hub) (execution_id conn channel : ℕ) (msg : Message)
    → lookup conn (or_empty (lookup execution_id h.clients)) ≡ some channel
    → (h.channels channel).closed ≡ false
    → (t : Hub) × (register h execution_id conn ≡ some t)
      × (send_message t msg (conn, channel) ≡ none)
      × (remove_client t execution_id conn ≡ none)
      × (register t execution_id conn ≡ none)
unfolding register remove_client send_message close
register_twice_panics h execution_id conn channel msg found o =
    let conns = or_empty (lookup execution_id h.clients) in
    let t : Hub = record h {
      clients = insert execution_id conns h.clients;
      channels = set_channel h.channels channel (record (h.channels channel) { closed = true });
    } in
    let again = lookup-insert execution_id execution_id conns h.clients in
    (t, ground arith, ground arith, ground (arith, again), ground (arith, again))
