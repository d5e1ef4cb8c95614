-- ===== src/Hub/Clients.antt =====
-- The safety of the hub of backend/internal/ws/hub.go where clients come and go.
use auto_restic.Shared.{
  subst, sym, ap, ◌∙◌, ◌≢◌, ℕ, suc, ◌≡◌, inl, inr, true, false, List, [], ◌∷◌, Option, none, some,
  arith, nat_eq, nat_eq_iff, Eq-ℕ, lookup, insert, erase, lookup-insert, lookup-erase, All, All-map,
  All-insert, All-erase, lookup-All, Bool-cases, Option-cases, if◌then◌else◌,
}
use auto_restic.Hub.{Hub, or_empty, set_channel, without_empty, close, register, remove_client}
use auto_restic.Hub.Safety.{IsEntry, IsSafe, Safely, entries_of}

-- The hub behind the registration of a connection that was not registered.
abbrev registered : Hub → ℕ → ℕ → Hub
registered h execution_id conn = record {
  clients =
      insert execution_id (insert conn h.next_channel (or_empty (lookup execution_id h.clients)))
        h.clients;
  channels =
      set_channel h.channels h.next_channel
        (record { execution_id = execution_id; conn = conn; queue = []; closed = false });
  next_channel = suc h.next_channel;
}

register_new :
    (h : Hub) (execution_id conn : ℕ)
    → lookup conn (or_empty (lookup execution_id h.clients)) ≡ none
    → register h execution_id conn ≡ some (registered h execution_id conn)
unfolding register
register_new h execution_id conn free = ground arith

module _ (h : Hub) (execution_id conn : ℕ) (safe : IsSafe h) where
  older :
      (id : ℕ) (p : ℕ × ℕ)
      → IsEntry h.channels h.next_channel id p
      → IsEntry (registered h execution_id conn).channels (suc h.next_channel) id p
  older id p g = ground arith

  registered-IsSafe : IsSafe (registered h execution_id conn)
  registered-IsSafe = record {
    entries = λ id conns e. elim (Bool-cases (nat_eq execution_id id)) [
      | inl same ↦
          let at : execution_id ≡ id = (nat_eq_iff execution_id id).0 same in
          let found : insert conn h.next_channel (or_empty (lookup execution_id h.clients))
              ≡ conns =
            ground (
              arith,
              lookup-insert execution_id id
                  (insert conn h.next_channel (or_empty (lookup execution_id h.clients))) h.clients,
            ) in
          subst
            (λ (j : ℕ).
              All (IsEntry (registered h execution_id conn).channels (suc h.next_channel) j) conns)
            at
            (subst
              (λ (c : List (ℕ × ℕ)).
                All
                  (IsEntry (registered h execution_id conn).channels (suc h.next_channel)
                    execution_id)
                  c)
              found
              (All-insert
                (IsEntry (registered h execution_id conn).channels (suc h.next_channel)
                  execution_id)
                conn h.next_channel (or_empty (lookup execution_id h.clients)) (ground arith)
                (All-map (IsEntry h.channels h.next_channel execution_id)
                  (IsEntry (registered h execution_id conn).channels (suc h.next_channel)
                    execution_id)
                  (older execution_id) (or_empty (lookup execution_id h.clients))
                  (entries_of h execution_id safe))))
      | inr other ↦
          All-map (IsEntry h.channels h.next_channel id)
            (IsEntry (registered h execution_id conn).channels (suc h.next_channel) id) (older id)
            conns
            (safe.entries id conns (
              ground (
                arith,
                lookup-insert execution_id id
                    (insert conn h.next_channel (or_empty (lookup execution_id h.clients)))
                    h.clients,
              )))
    ];
  }

pub register_safe :
    (h : Hub) (execution_id conn : ℕ)
    → IsSafe h
    → lookup conn (or_empty (lookup execution_id h.clients)) ≡ none
    → Safely (register h execution_id conn)
register_safe h execution_id conn safe free =
    subst Safely (sym (register_new h execution_id conn free))
      (registered-IsSafe h execution_id conn safe)

-- The map of an execution, which is not there when it is empty.
abbrev non_empty : List (ℕ × ℕ) → Option (List (ℕ × ℕ))
non_empty [] = none
non_empty (e ∷ conns) = some (e ∷ conns)

lookup-without_empty :
    (id j : ℕ) (conns : List (ℕ × ℕ)) (clients : List (ℕ × List (ℕ × ℕ)))
    → lookup j (without_empty id conns clients)
      ≡ (if nat_eq id j then non_empty conns else lookup j clients)
lookup-without_empty id j [] clients = lookup-erase id j clients
lookup-without_empty id j (e ∷ conns) clients = lookup-insert id j (e ∷ conns) clients

-- The hub behind the removal of a registered connection.
abbrev pub removed : Hub → ℕ → ℕ → ℕ → Hub
removed h execution_id conn channel = record h {
  clients =
      without_empty execution_id (erase conn (or_empty (lookup execution_id h.clients))) h.clients;
  channels = set_channel h.channels channel (record (h.channels channel) { closed = true });
}

pub remove_client_found :
    (h : Hub) (execution_id conn channel : ℕ)
    → lookup conn (or_empty (lookup execution_id h.clients)) ≡ some channel
    → (h.channels channel).closed ≡ false
    → remove_client h execution_id conn ≡ some (removed h execution_id conn channel)
unfolding remove_client close
remove_client_found h execution_id conn channel found o = ground arith

remove_client_missing :
    (h : Hub) (execution_id conn : ℕ)
    → lookup conn (or_empty (lookup execution_id h.clients)) ≡ none
    → remove_client h execution_id conn ≡ some h
unfolding remove_client
remove_client_missing h execution_id conn missing = ground arith

of_non_empty :
    (P : List (ℕ × ℕ) → Type 0) (c conns : List (ℕ × ℕ)) → non_empty c ≡ some conns → P c → P conns
of_non_empty P [] conns e h = cc
of_non_empty P (x ∷ c) conns e h = let same : x ∷ c ≡ conns = cc in subst P same h

module _ (h : Hub) (execution_id conn channel : ℕ) (safe : IsSafe h)
    (entry : IsEntry h.channels h.next_channel execution_id (conn, channel)) where
  removed-IsSafe : IsSafe (removed h execution_id conn channel)
  removed-IsSafe = record {
    entries = λ id conns e.
        let split =
          lookup-without_empty execution_id id
            (erase conn (or_empty (lookup execution_id h.clients))) h.clients in
        let After = IsEntry (removed h execution_id conn channel).channels h.next_channel in
        elim (Bool-cases (nat_eq execution_id id)) [
          | inl same ↦
              let at : execution_id ≡ id = (nat_eq_iff execution_id id).0 same in
              subst (λ (j : ℕ). All (After j) conns) at
                (of_non_empty (λ c. All (After execution_id) c)
                  (erase conn (or_empty (lookup execution_id h.clients))) conns
                  (ground (arith, split))
                  (All-erase (IsEntry h.channels h.next_channel execution_id) (After execution_id)
                    conn (λ j v ne g. ground (arith, entry))
                    (or_empty (lookup execution_id h.clients)) (entries_of h execution_id safe)))
          | inr other ↦
              All-map (IsEntry h.channels h.next_channel id) (After id)
                (λ p g. ground (arith, entry)) conns (safe.entries id conns (ground (arith, split)))
        ];
  }

others :
    (h : Hub) (execution_id conn channel : ℕ)
    → IsEntry h.channels h.next_channel execution_id (conn, channel)
    → (id : ℕ) (p : ℕ × ℕ) → (id ≡ execution_id → p.0 ≢ conn)
    → IsEntry h.channels h.next_channel id p
    → IsEntry (removed h execution_id conn channel).channels h.next_channel id p
others h execution_id conn channel entry id p apart g =
    let other : channel ≢ p.1 = λ same. differ same in ground arith
  where
    differ : channel ≡ p.1 → ⊥
    differ same =
        apart (sym g.0 ∙ ap (λ c. (h.channels c).execution_id) (sym same) ∙ entry.0)
          (sym g.1 ∙ ap (λ c. (h.channels c).conn) (sym same) ∙ entry.1)

-- A removal that did not panic, left a safe hub, and kept the entries of the other clients.
abbrev pub RemovesSafely : Hub → (execution_id conn : ℕ) → Option Hub → Type 0
RemovesSafely h execution_id conn none = ⊥
RemovesSafely h execution_id conn (some t) =
    IsSafe t
    × ((id : ℕ) (p : ℕ × ℕ)
        → (id ≡ execution_id → p.0 ≢ conn)
        → IsEntry h.channels h.next_channel id p
        → IsEntry t.channels t.next_channel id p)

pub remove_client_safe :
    (h : Hub) (execution_id conn : ℕ)
    → IsSafe h
    → RemovesSafely h execution_id conn (remove_client h execution_id conn)
remove_client_safe h execution_id conn safe =
    let conns = or_empty (lookup execution_id h.clients) in
    elim (Option-cases (lookup conn conns)) [
      | inl missing ↦
          subst (RemovesSafely h execution_id conn)
            (sym (remove_client_missing h execution_id conn missing)) (safe, λ id p apart g. g)
      | inr (channel, found) ↦
          let entry =
            lookup-All (IsEntry h.channels h.next_channel execution_id) conn channel conns found
              (entries_of h execution_id safe) in
          subst (RemovesSafely h execution_id conn)
            (sym (remove_client_found h execution_id conn channel found entry.2))
            (
              removed-IsSafe h execution_id conn channel safe entry,
              λ id p apart g. others h execution_id conn channel entry id p apart g,
            )
    ]
