-- ===== src/Hub/Runs.antt =====
-- The hub over any sequence of events.
use auto_restic.Shared.{
  if◌then◌else◌, ℕ, ◌≡◌, ◌≢◌, refl, sym, subst, List, [], ◌∷◌, Option, none, some, lookup, Eq-ℕ,
  Bool, All,
}
use auto_restic.Hub.{
  Message, Hub, or_empty, set_channel, register, remove_client, snapshot_clients, Serving, pump,
  remove_next, take_out, with_hub, is_idle, Event, registers, unregisters, broadcasts, sends, pumps,
  removes, step, run, new_serving,
}
use auto_restic.Hub.Safety.{
  IsEntry, IsSafe, Safely, IsServing, ServesSafely, SameClients-IsServing, queue-SameClients,
  send_next_safe, entries_of,
}
use auto_restic.Hub.Clients.{RemovesSafely, register_safe, remove_client_safe}

-- A registration is of a connection that is not registered for the execution, and a removal is not of
-- a client that a broadcast is still to be sent to.
abbrev pub IsCalm : Serving → Event → Type 0
IsCalm s (registers execution_id conn) =
    s.pending ≡ [] → lookup conn (or_empty (lookup execution_id s.hub.clients)) ≡ none
IsCalm s (removes n) =
    (execution_id conn : ℕ) (left : List (ℕ × ℕ))
    → take_out n s.removals ≡ some ((execution_id, conn), left)
    → s.message.execution_id ≡ execution_id
    → All (λ (p : ℕ × ℕ). p.0 ≢ conn) s.pending
IsCalm s _ = Unit

-- Every event of a run is calm when its turn comes.
abbrev pub IsCalmRun : Serving → List Event → Type 0
IsCalmRun s [] = Unit
IsCalmRun s (e ∷ es) = IsCalm s e × ((t : Serving) → step s e ≡ some t → IsCalmRun t es)

Waiting : Serving → List (ℕ × ℕ) → Type 0
Waiting s pending = All (IsEntry s.hub.channels s.hub.next_channel s.message.execution_id) pending

-- where no broadcast is on its way
idle_safe :
    (s : Serving) (pending : List (ℕ × ℕ)) (v : Option Serving)
    → IsServing s
    → (pending ≡ [] → ServesSafely v)
    → ServesSafely (if is_idle pending then v else some s)
idle_safe s [] v h idle = idle refl
idle_safe s (p ∷ pending) v h idle = h

with_hub_safe :
    (s : Serving) (v : Option Hub) → s.pending ≡ [] → Safely v → ServesSafely (with_hub s v)
with_hub_safe s none e safe = safe
with_hub_safe s (some h) e safe = record {
  safe = safe;
  waiting =
      subst (λ l. All (IsEntry h.channels h.next_channel s.message.execution_id) l) (sym e) tt;
}

removal_safe :
    (s : Serving) (execution_id conn : ℕ) (v : Option Hub)
    → RemovesSafely s.hub execution_id conn v
    → Safely v
removal_safe s execution_id conn none h = h
removal_safe s execution_id conn (some t) h = h.0

remove_next_safe :
    (s : Serving) (v : Option ((ℕ × ℕ) × List (ℕ × ℕ)))
    → IsServing s
    → ((execution_id conn : ℕ) (left : List (ℕ × ℕ))
        → v ≡ some ((execution_id, conn), left)
        → s.message.execution_id ≡ execution_id
        → All (λ (p : ℕ × ℕ). p.0 ≢ conn) s.pending)
    → ServesSafely (remove_next s v)
unfolding remove_next
remove_next_safe s none h apart = h
remove_next_safe s (some ((execution_id, conn), left)) h apart =
    go (remove_client s.hub execution_id conn) (remove_client_safe s.hub execution_id conn h.safe)
  where
    kept :
        (t : Hub) (pending : List (ℕ × ℕ))
        → ((id : ℕ) (p : ℕ × ℕ)
            → (id ≡ execution_id → p.0 ≢ conn)
            → IsEntry s.hub.channels s.hub.next_channel id p
            → IsEntry t.channels t.next_channel id p)
        → (s.message.execution_id ≡ execution_id → All (λ (p : ℕ × ℕ). p.0 ≢ conn) pending)
        → All (IsEntry s.hub.channels s.hub.next_channel s.message.execution_id) pending
        → All (IsEntry t.channels t.next_channel s.message.execution_id) pending
    kept t [] keeps away entries = tt
    kept t (p ∷ pending) keeps away (entry, entries) = (
      keeps s.message.execution_id p (λ same. (away same).0) entry,
      kept t pending keeps (λ same. (away same).1) entries,
    )

    go :
        (v : Option Hub)
        → RemovesSafely s.hub execution_id conn v
        → ServesSafely (with_hub (record s { removals = left }) v)
    go none r = r
    go (some t) r = record {
      safe = r.0;
      waiting = kept t s.pending r.1 (apart execution_id conn left refl) h.waiting;
    }

pump_safe :
    (s : Serving) (channel : ℕ) (written : Bool) → IsServing s → IsServing (pump s channel written)
unfolding pump
pump_safe s channel written h = go (s.hub.channels channel).queue
  where
    go :
        (queue : List Message)
        → IsServing (elim queue [
          | [] ↦ s
          | m ∷ rest ↦ record s {
            hub = record s.hub {
              channels =
                  set_channel s.hub.channels channel
                    (record (s.hub.channels channel) { queue = rest });
            };
            removals =
                if written
                then s.removals
                else ((s.hub.channels channel).execution_id, (s.hub.channels channel).conn)
                  ∷ s.removals;
          }
        ])
    go [] = h
    go (m ∷ rest) =
        SameClients-IsServing s _ s.pending _ (queue-SameClients s.hub.channels channel rest) h.safe
          h.waiting

step_safe : (s : Serving) (e : Event) → IsServing s → IsCalm s e → ServesSafely (step s e)
unfolding step snapshot_clients
step_safe s (registers execution_id conn) h fresh =
    idle_safe s s.pending (with_hub s (register s.hub execution_id conn)) h (λ idle.
      with_hub_safe s (register s.hub execution_id conn) idle
        (register_safe s.hub execution_id conn h.safe (fresh idle)))
step_safe s (unregisters execution_id conn) h calm =
    idle_safe s s.pending (with_hub s (remove_client s.hub execution_id conn)) h (λ idle.
      with_hub_safe s (remove_client s.hub execution_id conn) idle (
        removal_safe s execution_id conn (remove_client s.hub execution_id conn)
          (remove_client_safe s.hub execution_id conn h.safe)))
step_safe s (broadcasts msg) h calm =
    idle_safe s s.pending _ h
      (λ idle. record { safe = h.safe; waiting = entries_of s.hub msg.execution_id h.safe })
step_safe s sends h calm = send_next_safe s s.pending h.safe h.waiting refl
step_safe s (pumps channel written) h calm = pump_safe s channel written h
step_safe s (removes n) h calm = remove_next_safe s (take_out n s.removals) h calm

new_serving-IsServing : IsServing new_serving
unfolding lookup
new_serving-IsServing = record { safe = record { entries = λ id conns e. cc }; waiting = tt }

run_safe : (s : Serving) (es : List Event) → IsServing s → IsCalmRun s es → ServesSafely (run s es)
unfolding run
run_safe s [] h calm = h
run_safe s (e ∷ es) h calm =
    go (λ t k q. run_safe t es k (calm.1 t q)) (step s e) refl (step_safe s e h calm.0)
  where
    go :
        ((t : Serving) → IsServing t → step s e ≡ some t → ServesSafely (run t es))
        → (o : Option Serving) → step s e ≡ o
        → ServesSafely o
        → ServesSafely (elim o [ none ↦ none | some t ↦ run t es ])
    go rest none q k = k
    go rest (some t) q k = rest t k q

ServesSafely-some :
    (o : Option Serving) → ServesSafely o → (t : Serving) × ((o ≡ some t) × IsSafe t.hub)
ServesSafely-some none h = absurd h
ServesSafely-some (some t) h = (t, (refl, h.safe))

-- From a new hub, any sequence of registrations, removals, broadcasts, single sends of them and
-- writes of the pumps ends without a panic, where no connection is registered for an execution
-- while it is registered for it, and no client is removed while a broadcast is still to be sent to
-- it: no channel is closed twice, and nothing is sent on a closed one. In the hub that it ends in,
-- every registered client has an open channel of its own.
pub run_never_panics :
    (es : List Event)
    → IsCalmRun new_serving es
    → (t : Serving) × ((run new_serving es ≡ some t) × IsSafe t.hub)
run_never_panics es calm =
    ServesSafely-some (run new_serving es) (run_safe new_serving es new_serving-IsServing calm)
