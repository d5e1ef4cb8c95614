-- ===== src/Reservation/Invariant.antt =====
-- The invariant of requests and reserved repositories, at acquireRepoOperation of
-- backend/internal/service/repo_service.go.
use auto_restic.Shared.{
  none, some, inl, inr, Bool-cases, Option-cases, ℕ, ◌<◌, ◌≡◌, ◌≢◌, ◌⊎◌, true, false, arith, lookup,
  lookup-insert, Eq-ℕ, nat_eq, Option,
}
use auto_restic.Reservation.{
  RepoOps, RepoOperationState, RepoOperationReservation, acquire_repo_operation,
}
use auto_restic.Reservation.Threads.{Call, waiting, holding, System, attempt}

-- The channel of the operation that is active on a repository.
abbrev pub active_channel : ℕ → RepoOps → Option ℕ
active_channel p s = elim (lookup p s.ops) [ none ↦ none | some st ↦ some st.done ]

pub record IsExclusive (s : System) : Type 0 where
  pub open_entries :
      (p : ℕ) (st : RepoOperationState)
      → lookup p s.service.ops ≡ some st
      → (s.service.closed st.done ≡ false) × (st.done < s.service.next_channel)
  pub distinct_channels :
      (p q : ℕ) (st su : RepoOperationState)
      → lookup p s.service.ops ≡ some st
      → lookup q s.service.ops ≡ some su
      → st.done ≡ su.done
      → p ≡ q
  pub old_channels : (c : ℕ) → s.service.closed c ≡ true → c < s.service.next_channel
  pub owned :
      (i : ℕ) (r : RepoOperationReservation)
      → s.threads i ≡ holding r
      → lookup r.repo_id s.service.ops ≡ some r.state
  pub one_holder :
      (i j : ℕ) (r q : RepoOperationReservation)
      → s.threads i ≡ holding r
      → s.threads j ≡ holding q
      → r.repo_id ≡ q.repo_id
      → i ≡ j
  pub held :
      (p : ℕ) (st : RepoOperationState)
      → lookup p s.service.ops ≡ some st
      → (i : ℕ) × (s.threads i ≡ holding (record { repo_id = p; state = st }))
  pub awaited :
      (i : ℕ) (c : Call) (channel : ℕ)
      → s.threads i ≡ waiting c channel
      → (s.service.closed channel ≡ true) ⊎ (active_channel c.repo_id s.service ≡ some channel)

abbrev fresh : System → Call → RepoOperationState
fresh s c = record { class = c.class; kind = c.kind; done = s.service.next_channel }

-- A round of acquireRepoOperation by a thread that holds nothing, field by field.
module _ (s : System) (h : IsExclusive s) (i : ℕ) (c : Call)
    (free : (r : RepoOperationReservation) → s.threads i ≢ holding r) where
  attempt-open_entries :
      (p : ℕ) (st : RepoOperationState)
      → lookup p (attempt s i c).service.ops ≡ some st
      → ((attempt s i c).service.closed st.done ≡ false)
        × (st.done < (attempt s i c).service.next_channel)
  unfolding attempt acquire_repo_operation
  attempt-open_entries p st e = ground (
    arith,
    lookup-insert c.repo_id p (fresh s c) s.service.ops,
    h.open_entries p st,
    h.old_channels s.service.next_channel,
  )

  attempt-distinct_channels :
      (p q : ℕ) (st su : RepoOperationState)
      → lookup p (attempt s i c).service.ops ≡ some st
      → lookup q (attempt s i c).service.ops ≡ some su
      → st.done ≡ su.done
      → p ≡ q
  unfolding attempt acquire_repo_operation
  attempt-distinct_channels p q st su e f d = ground (
    arith,
    lookup-insert c.repo_id p (fresh s c) s.service.ops,
    lookup-insert c.repo_id q (fresh s c) s.service.ops,
    h.open_entries p st,
    h.open_entries q su,
    h.distinct_channels p q st su,
  )

  attempt-old_channels :
      (ch : ℕ)
      → (attempt s i c).service.closed ch ≡ true
      → ch < (attempt s i c).service.next_channel
  unfolding attempt acquire_repo_operation
  attempt-old_channels ch e = ground (arith, h.old_channels ch)

  attempt-owned :
      (j : ℕ) (r : RepoOperationReservation)
      → (attempt s i c).threads j ≡ holding r
      → lookup r.repo_id (attempt s i c).service.ops ≡ some r.state
  unfolding attempt acquire_repo_operation
  attempt-owned j r e =
      ground (arith, lookup-insert c.repo_id r.repo_id (fresh s c) s.service.ops, h.owned j r)

  attempt-one_holder :
      (j k : ℕ) (r q : RepoOperationReservation)
      → (attempt s i c).threads j ≡ holding r
      → (attempt s i c).threads k ≡ holding q
      → r.repo_id ≡ q.repo_id
      → j ≡ k
  unfolding attempt acquire_repo_operation
  attempt-one_holder j k r q e f d = ground (arith, h.owned j r, h.owned k q, h.one_holder j k r q)

  attempt-awaited :
      (j : ℕ) (d : Call) (channel : ℕ)
      → (attempt s i c).threads j ≡ waiting d channel
      → ((attempt s i c).service.closed channel ≡ true)
        ⊎ (active_channel d.repo_id (attempt s i c).service ≡ some channel)
  unfolding attempt acquire_repo_operation
  attempt-awaited j d channel e =
      ground
        (arith, lookup-insert c.repo_id d.repo_id (fresh s c) s.service.ops, h.awaited j d channel)

  attempt-held :
      (p : ℕ) (st : RepoOperationState)
      → lookup p (attempt s i c).service.ops ≡ some st
      → (j : ℕ) × ((attempt s i c).threads j ≡ holding (record { repo_id = p; state = st }))
  unfolding attempt acquire_repo_operation
  attempt-held p st e = elim (Option-cases (lookup c.repo_id s.service.ops)) [
    | inl none_active ↦ elim (Bool-cases (nat_eq c.repo_id p)) [
      | inl same ↦ (i, ground (arith, lookup-insert c.repo_id p (fresh s c) s.service.ops))
      | inr other ↦
          let (j, k) =
            h.held p st (ground (arith, lookup-insert c.repo_id p (fresh s c) s.service.ops)) in
          (j, ground (arith, free (record { repo_id = p; state = st })))
    ]
    | inr (a, active) ↦
        let (j, k) = h.held p st (ground arith) in
        (j, ground (arith, free (record { repo_id = p; state = st })))
  ]

  pub attempt-IsExclusive : IsExclusive (attempt s i c)
  attempt-IsExclusive = record {
    open_entries = attempt-open_entries;
    distinct_channels = attempt-distinct_channels;
    old_channels = attempt-old_channels;
    owned = attempt-owned;
    one_holder = attempt-one_holder;
    held = attempt-held;
    awaited = attempt-awaited;
  }
