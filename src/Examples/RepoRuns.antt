-- ===== src/Examples/RepoRuns.antt =====
-- A request that holds a repository while another waits for it:
-- backend/internal/service/repo_service.go.
use auto_restic.Shared.{
  none, insert, ℕ, ◌≡◌, ◌⊎◌, refl, true, false, List, [], ◌∷◌, some, Text, codes, lookup, Eq-ℕ,
}
use auto_restic.Reservation.{
  exclusive, RepoOperationState, RepoOperationReservation, RepoOps, acquired,
  acquire_repo_operation, release_repo_operation,
}
use auto_restic.Reservation.Threads.{
  Call, waiting, holding, System, attempt, initial, enter, Reach, start, next,
}
use auto_restic.Reservation.Refine.{Locks, HolderStep, IsAbstract, Step-HolderStep}
use auto_restic.Reservation.Exclusion.{
  Reach_mutual_exclusion, Reach_release_frees, Reach_waiting_served,
}

abbrev backup_call : Call
backup_call = record { repo_id = 7; kind = codes "backup"; class = exclusive; wait = true }

abbrev check_call : Call
check_call = record { repo_id = 7; kind = codes "check"; class = exclusive; wait = true }

-- thread 0 backs up, thread 1 is to check
abbrev both : System
both = attempt (attempt initial 0 backup_call) 1 check_call

both-Reach : Reach both
unfolding attempt acquire_repo_operation lookup insert
both-Reach = next (next start (enter 0 backup_call refl)) (enter 1 check_call refl)

abbrev held : RepoOperationReservation
held = record { repo_id = 7; state = record { class = exclusive; kind = codes "backup"; done = 0 } }

first-holding : both.threads 0 ≡ holding held
unfolding attempt acquire_repo_operation lookup insert
first-holding = refl

second-waiting : both.threads 1 ≡ waiting check_call 0
unfolding attempt acquire_repo_operation lookup insert
second-waiting = refl

Reach_mutual_exclusion_example : ◌≡◌ {A = ℕ} 0 0
Reach_mutual_exclusion_example =
    Reach_mutual_exclusion both-Reach 0 0 held held first-holding first-holding refl

Reach_release_frees_example :
    (t : RepoOps) × (release_repo_operation both.service held ≡ some t)
    × (t.closed held.state.done ≡ true)
    × ((acquire_repo_operation t 7 (codes "prune") exclusive false).0
        ≡ acquired (record {
          repo_id = 7;
          state = record { class = exclusive; kind = codes "prune"; done = t.next_channel };
        }))
Reach_release_frees_example =
    Reach_release_frees both-Reach 0 held (codes "prune") exclusive false first-holding

Reach_waiting_served_example :
    (both.service.closed 0 ≡ true)
    ⊎ ((j : ℕ) × (st : RepoOperationState) × (both.threads j
          ≡ holding (record { repo_id = 7; state = st }))
        × (st.done ≡ 0))
Reach_waiting_served_example = Reach_waiting_served both-Reach 1 check_call 0 second-waiting

abbrev prune_args : List Text
prune_args = codes "prune" ∷ []

-- no repository is reserved
abbrev all_free : Locks
all_free p = none

initial-IsAbstract : IsAbstract initial.threads all_free
initial-IsAbstract p i = ((λ e. cc), λ held. let (r, (holds, at)) = held in cc holds)

Step-HolderStep_example :
    (b : Locks) × (HolderStep all_free b × IsAbstract (attempt initial 0 backup_call).threads b)
Step-HolderStep_example =
    Step-HolderStep all_free start initial-IsAbstract (enter 0 backup_call refl)
