-- ===== src/Hub/Safety.antt =====
-- The safety of the hub of backend/internal/ws/hub.go: which channels may be closed or sent on.
use auto_restic.Shared.{
  Bool, if◌then◌else◌, subst, sym, ℕ, ◌<◌, ◌≡◌, inl, inr, true, false, List, [], ◌∷◌, ◌++◌, Option,
  none, some, arith, Eq-ℕ, lookup, All, All-map, Option-cases, ltb, length,
}
use auto_restic.Hub.{
  Message, Client, Hub, Serving, or_empty, set_channel, send_capacity, send_message, send_next,
  with_sent,
}

-- An entry of the map of an execution: its channel is that of its client, and open.
abbrev pub IsEntry : (ℕ → Client) → ℕ → ℕ → ℕ × ℕ → Type 0
IsEntry channels next execution_id p =
    ((channels p.1).execution_id ≡ execution_id)
    × ((channels p.1).conn ≡ p.0)
    × ((channels p.1).closed ≡ false)
    × (p.1 < next)

pub record IsSafe (h : Hub) : Type 0 where
  pub entries :
      (execution_id : ℕ) (conns : List (ℕ × ℕ))
      → lookup execution_id h.clients ≡ some conns
      → All (IsEntry h.channels h.next_channel execution_id) conns

-- What the steps that only touch queues leave alone.
abbrev pub SameClients : (ℕ → Client) → (ℕ → Client) → Type 0
SameClients a b =
    (c : ℕ)
    → ((b c).execution_id ≡ (a c).execution_id)
      × ((b c).conn ≡ (a c).conn)
      × ((b c).closed ≡ (a c).closed)

pub SameClients-IsSafe :
    (h : Hub) (channels : ℕ → Client)
    → SameClients h.channels channels
    → IsSafe h
    → IsSafe (record h { channels = channels })
SameClients-IsSafe h channels same safe = record {
  entries = λ execution_id conns e.
      All-map (IsEntry h.channels h.next_channel execution_id)
        (IsEntry channels h.next_channel execution_id) (λ p g. ground (arith, same p.1)) conns
        (safe.entries execution_id conns e);
}

abbrev pub IsOpen : (ℕ → Client) → ℕ × ℕ → Type 0
IsOpen channels p = (channels p.1).closed ≡ false

-- Another queue for one channel.
pub queue-SameClients :
    (channels : ℕ → Client) (channel : ℕ) (queue : List Message)
    → SameClients channels
        (set_channel channels channel (record (channels channel) { queue = queue }))
queue-SameClients channels channel queue c = ground arith

-- The entries of an execution, whether it has a map or not.
pub entries_of :
    (h : Hub) (execution_id : ℕ)
    → IsSafe h
    → All
        (IsEntry h.channels h.next_channel execution_id)
        (or_empty (lookup execution_id h.clients))
entries_of h execution_id safe = elim (Option-cases (lookup execution_id h.clients)) [
  | inl e ↦ rw e tt
  | inr (c, e) ↦ rw e (safe.entries execution_id c e)
]

-- A step that did not panic, and left a safe hub.
abbrev pub Safely : Option Hub → Type 0
Safely none = ⊥
Safely (some h) = IsSafe h

-- The clients of a broadcast that it is still to be sent to are registered, or were and are open.
pub record IsServing (s : Serving) : Type 0 where
  pub safe : IsSafe s.hub
  pub waiting : All (IsEntry s.hub.channels s.hub.next_channel s.message.execution_id) s.pending

abbrev pub ServesSafely : Option Serving → Type 0
ServesSafely none = ⊥
ServesSafely (some s) = IsServing s

-- A hub whose queues alone are other ones.
pub SameClients-IsServing :
    (s : Serving) (channels : ℕ → Client) (pending removals : List (ℕ × ℕ))
    → SameClients s.hub.channels channels
    → IsSafe s.hub
    → All (IsEntry s.hub.channels s.hub.next_channel s.message.execution_id) pending
    → IsServing (record s {
      hub = record s.hub { channels = channels };
      pending = pending;
      removals = removals;
    })
SameClients-IsServing s channels pending removals same safe waiting = record {
  safe = SameClients-IsSafe s.hub channels same safe;
  waiting =
      All-map (IsEntry s.hub.channels s.hub.next_channel s.message.execution_id)
        (IsEntry channels s.hub.next_channel s.message.execution_id)
        (λ p g. ground (arith, same p.1)) pending waiting;
}

sent_cases :
    (s : Serving) (rest : List (ℕ × ℕ)) (closed room : Bool) (kept full : Hub × List (ℕ × ℕ))
    → closed ≡ false
    → ServesSafely (with_sent s rest (some kept))
    → ServesSafely (with_sent s rest (some full))
    → ServesSafely
        (with_sent s rest (if closed then none else if room then some kept else some full))
sent_cases s rest true room kept full o k f = cc
sent_cases s rest false true kept full o k f = k
sent_cases s rest false false kept full o k f = f

-- A send to a client that is open does not panic.
pub send_next_safe :
    (s : Serving) (pending : List (ℕ × ℕ))
    → IsSafe s.hub
    → All (IsEntry s.hub.channels s.hub.next_channel s.message.execution_id) pending
    → s.pending ≡ pending
    → ServesSafely (send_next s pending)
unfolding send_next send_message
send_next_safe s [] safe waiting e = record {
  safe = safe;
  waiting =
      subst (λ l. All (IsEntry s.hub.channels s.hub.next_channel s.message.execution_id) l) (sym e)
        tt;
}
send_next_safe s ((conn, channel) ∷ rest) safe (entry, entries) e =
    sent_cases s rest (s.hub.channels channel).closed
      (ltb (length (s.hub.channels channel).queue) send_capacity) _ _ entry.2
      (SameClients-IsServing s _ rest s.removals
        (queue-SameClients s.hub.channels channel
          ((s.hub.channels channel).queue ++ s.message ∷ []))
        safe entries)
      (record { safe = safe; waiting = entries })
