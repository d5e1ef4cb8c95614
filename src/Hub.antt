-- ===== src/Hub.antt =====
-- The WebSocket hub: backend/internal/ws/hub.go. The goroutine of Run takes one request at a time,
-- and a broadcast is one send after another to the clients that were there when it began; the pumps
-- and the removals run beside it, between two sends as well. A connection is known by a number,
-- and so is the `send` channel of a client.
pub mod Safety
pub mod Clients
pub mod Runs
pub mod Disturbed
pub mod Duplicate
use auto_restic.Shared.{
  zero, ℕ, suc, Bool, true, false, List, [], ◌∷◌, ◌++◌, Option, none, some, Text, codes, nat_eq,
  Eq-ℕ, lookup, insert, erase, if◌then◌else◌, ltb, length, ℤ, pos,
}

pub data MessageType : Type 0 where
  output complete : MessageType

-- The field Time of a message is never set.
pub record Message : Type 0 where
  pub execution_id : ℕ
  pub type : MessageType
  pub stream : Text
  pub text : Text
  pub exit_code : ℤ

-- A client with its channel: the pump knows the execution that it was started for.
pub record Client : Type 0 where
  pub execution_id : ℕ
  pub conn : ℕ
  pub queue : List Message
  pub closed : Bool

pub record Hub : Type 0 where
  pub clients : List (ℕ × List (ℕ × ℕ))
  pub channels : ℕ → Client
  pub next_channel : ℕ

abbrev pub send_capacity : ℕ
send_capacity = 64

abbrev pub set_channel : (ℕ → Client) → ℕ → Client → ℕ → Client
set_channel channels c client d = if nat_eq c d then client else channels d

abbrev pub or_empty : Option (List (ℕ × ℕ)) → List (ℕ × ℕ)
or_empty none = []
or_empty (some conns) = conns

-- close(ch): `none` is the panic on a channel that is closed.
unfoldable pub close : Hub → ℕ → Option Hub
close h c =
    let client = h.channels c in
    if client.closed
    then none
    else some (record h { channels = set_channel h.channels c (record client { closed = true }) })

-- the case `sub := <-h.register` of Run
unfoldable pub register : Hub → ℕ → ℕ → Option Hub
register h execution_id conn =
    let conns = or_empty (lookup execution_id h.clients) in
    elim (lookup conn conns) [
      | some existing ↦ close (record h { clients = insert execution_id conns h.clients }) existing
      | none ↦
          let client : Client = record {
            execution_id = execution_id;
            conn = conn;
            queue = [];
            closed = false;
          } in
          some (record {
            clients = insert execution_id (insert conn h.next_channel conns) h.clients;
            channels = set_channel h.channels h.next_channel client;
            next_channel = suc h.next_channel;
          })
    ]

-- What is left of the map of an execution once a connection is out of it.
abbrev pub without_empty : ℕ → List (ℕ × ℕ) → List (ℕ × List (ℕ × ℕ)) → List (ℕ × List (ℕ × ℕ))
without_empty execution_id [] clients = erase execution_id clients
without_empty execution_id (e ∷ conns) clients = insert execution_id (e ∷ conns) clients

unfoldable pub remove_client : Hub → ℕ → ℕ → Option Hub
remove_client h execution_id conn =
    let conns = or_empty (lookup execution_id h.clients) in
    elim (lookup conn conns) [
      | none ↦ some h
      | some channel ↦
          close (record h { clients = without_empty execution_id (erase conn conns) h.clients })
            channel
    ]

-- `subscriber.send <- msg` with a default, for one client of the snapshot: the hub behind it, and the
-- removal that it starts. A send on a closed channel panics; a client whose channel is full is to
-- be removed.
unfoldable pub send_message : Hub → Message → ℕ × ℕ → Option (Hub × List (ℕ × ℕ))
send_message h msg (conn, channel) =
    let client = h.channels channel in
    if client.closed
    then none
    else if ltb (length client.queue) send_capacity
    then some (
      record h {
        channels =
            set_channel h.channels channel (record client { queue = client.queue ++ msg ∷ [] });
      },
      [],
    )
    else some (h, (msg.execution_id, conn) ∷ [])

unfoldable pub snapshot_clients : Hub → ℕ → List (ℕ × ℕ)
snapshot_clients h execution_id = or_empty (lookup execution_id h.clients)

abbrev pub send_output : ℕ → Text → Text → Message
send_output execution_id stream text = record {
  execution_id = execution_id;
  type = output;
  stream = stream;
  text = text;
  exit_code = pos 0;
}

abbrev pub send_complete : ℕ → ℤ → Message
send_complete execution_id exit_code = record {
  execution_id = execution_id;
  type = complete;
  stream = [];
  text = [];
  exit_code = exit_code;
}

-- A hub that serves: the message that is broadcast, the clients of the snapshot that it is still to be
-- sent to, and the calls of removeClient that goroutines are about to make.
pub record Serving : Type 0 where
  pub hub : Hub
  pub message : Message
  pub pending : List (ℕ × ℕ)
  pub removals : List (ℕ × ℕ)

-- What happens. The first four are Run's: a request is taken only when no broadcast is on its way.
-- A pump takes the first message of its channel and writes it, or fails and is about to remove its
-- client. A removal is made by its number.
pub data Event : Type 0 where
  registers unregisters : (execution_id conn : ℕ) → Event
  broadcasts : Message → Event
  sends : Event
  pumps : (channel : ℕ) (written : Bool) → Event
  removes : ℕ → Event

unfoldable pub take_out {ℓ} : {A : Type ℓ} → ℕ → List A → Option (A × List A)
take_out n [] = none
take_out zero (x ∷ xs) = some (x, xs)
take_out (suc n) (x ∷ xs) = elim (take_out n xs) [ none ↦ none | some (y, ys) ↦ some (y, x ∷ ys) ]

unfoldable pub pump : Serving → ℕ → Bool → Serving
pump s channel written =
    let client = s.hub.channels channel in
    elim client.queue [
      | [] ↦ s
      | m ∷ queue ↦ record s {
        hub = record s.hub {
          channels = set_channel s.hub.channels channel (record client { queue = queue });
        };
        removals = if written then s.removals else (client.execution_id, client.conn) ∷ s.removals;
      }
    ]

abbrev pub with_hub : Serving → Option Hub → Option Serving
with_hub s none = none
with_hub s (some h) = some (record s { hub = h })

abbrev pub with_sent : Serving → List (ℕ × ℕ) → Option (Hub × List (ℕ × ℕ)) → Option Serving
with_sent s rest none = none
with_sent s rest (some (h, started)) =
    some (record s { hub = h; pending = rest; removals = started ++ s.removals })

-- the next send of broadcastMessage
unfoldable pub send_next : Serving → List (ℕ × ℕ) → Option Serving
unfolding send_message
send_next s [] = some s
send_next s (p ∷ rest) = with_sent s rest (send_message s.hub s.message p)

unfoldable pub remove_next : Serving → Option ((ℕ × ℕ) × List (ℕ × ℕ)) → Option Serving
unfolding remove_client
remove_next s none = some s
remove_next s (some ((execution_id, conn), left)) =
    with_hub (record s { removals = left }) (remove_client s.hub execution_id conn)

abbrev pub is_idle : List (ℕ × ℕ) → Bool
is_idle [] = true
is_idle (p ∷ pending) = false

-- `none` is a panic; an event that is not possible changes nothing.
unfoldable pub step : Serving → Event → Option Serving
unfolding register remove_client snapshot_clients send_next remove_next take_out pump
step s (registers execution_id conn) =
    if is_idle s.pending then with_hub s (register s.hub execution_id conn) else some s
step s (unregisters execution_id conn) =
    if is_idle s.pending then with_hub s (remove_client s.hub execution_id conn) else some s
step s (broadcasts msg) =
    if is_idle s.pending
    then some (record s { message = msg; pending = snapshot_clients s.hub msg.execution_id })
    else some s
step s sends = send_next s s.pending
step s (pumps channel written) = some (pump s channel written)
step s (removes n) = remove_next s (take_out n s.removals)

unfoldable pub run : Serving → List Event → Option Serving
unfolding step
run s [] = some s
run s (e ∷ es) = elim (step s e) [ none ↦ none | some t ↦ run t es ]

abbrev pub new_hub : Hub
new_hub = record {
  clients = [];
  channels = λ _. record { execution_id = 0; conn = 0; queue = []; closed = false };
  next_channel = 0;
}

abbrev pub new_serving : Serving
new_serving = record { hub = new_hub; message = send_output 0 [] []; pending = []; removals = [] }
