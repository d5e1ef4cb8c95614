-- ===== src/Reservation/Exclusion.antt =====
-- Requests for repositories that run at once: acquireRepoOperation and releaseRepoOperation of
-- backend/internal/service/repo_service.go.
use auto_restic.Shared.{
  some, inl, inr, lookup-erase, Option-cases, ℕ, ◌≡◌, ◌⊎◌, true, arith, lookup, Eq-ℕ, Bool, Text,
}
use auto_restic.Reservation.{
  acquired, RepoOperationClass, release_repo_operation, RepoOps, RepoOperationState,
  RepoOperationReservation, acquire_repo_operation,
}
use auto_restic.Reservation.Threads.{Reach, Call, waiting, holding, System}
use auto_restic.Reservation.Release.{released, release-released, Reach-IsExclusive}

-- In every state that any interleaving of requests reaches, two requests that hold the same
-- repository are one.
pub Reach_mutual_exclusion :
    {s : System}
    → Reach s
    → (i j : ℕ) (r q : RepoOperationReservation) → s.threads i ≡ holding r
    → s.threads j ≡ holding q
    → r.repo_id ≡ q.repo_id
    → i ≡ j
Reach_mutual_exclusion reach = (Reach-IsExclusive reach).one_holder

-- A reached holder's release does not panic; it closes the holder's channel, and the next request
-- for the repository acquires it, whatever its kind.
pub Reach_release_frees :
    {s : System}
    → Reach s
    → (i : ℕ) (r : RepoOperationReservation) (kind : Text) (class : RepoOperationClass)
      (wait : Bool)
    → s.threads i ≡ holding r
    → (t : RepoOps) × (release_repo_operation s.service r ≡ some t)
      × (t.closed r.state.done ≡ true)
      × ((acquire_repo_operation t r.repo_id kind class wait).0
          ≡ acquired (record {
            repo_id = r.repo_id;
            state = record { class = class; kind = kind; done = t.next_channel };
          }))
unfolding acquire_repo_operation
Reach_release_frees {s} reach i r kind class wait e = (
  released s.service r,
  release-released s i r (Reach-IsExclusive reach) e,
  ground arith,
  ground (arith, lookup-erase r.repo_id r.repo_id s.service.ops),
)

-- No wake-up is lost: a reached request that waits can go on, or it waits on the channel that the
-- holder of its repository closes.
pub Reach_waiting_served :
    {s : System}
    → Reach s
    → (i : ℕ) (c : Call) (channel : ℕ) → s.threads i ≡ waiting c channel
    → (s.service.closed channel ≡ true)
      ⊎ ((j : ℕ) × (st : RepoOperationState) × (s.threads j
            ≡ holding (record { repo_id = c.repo_id; state = st }))
          × (st.done ≡ channel))
Reach_waiting_served {s} reach i c channel e =
    let h = Reach-IsExclusive reach in
    elim (h.awaited i c channel e) [
      | inl closed ↦ inl closed
      | inr active ↦ elim (Option-cases (lookup c.repo_id s.service.ops)) [
        | inl none_active ↦ absurd (ground arith)
        | inr (st, found) ↦ let (j, k) = h.held c.repo_id st found in inr (j, st, k, ground arith)
      ]
    ]
