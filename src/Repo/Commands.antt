-- ===== src/Repo/Commands.antt =====
-- A command on a repository, from its reservation to its release: runResticCommand and
-- runResticCommandWithReservation of backend/internal/service/repo_service.go.
pub mod Guarded
use auto_restic.Shared.{
  ◌==◌, ◌&&◌, ℕ, List, [], ◌∷◌, Option, none, some, Text, Eq-Text, codes, if◌then◌else◌, true,
}
use auto_restic.Exec.{Error, wrapped, repository_busy, Result, ok, err, ExecResult}
use auto_restic.Reservation.{
  RepoOperationReservation, RepoOps, Attempt, acquired, busy, blocked, acquire_repo_operation,
  release_repo_operation, classify_repo_operation, scheduled_command_needs_lock,
}
use auto_restic.Repo.Cipher.{Gcm}
use auto_restic.Repo.{Repository}
use auto_restic.Repo.Access.{Command, Outside}
use auto_restic.Repo.Runtime.{build_restic_runtime}
use auto_restic.Repo.Locks.{LockJson, LockEnv, LockStep, prepare_scheduled_restic_locks}

-- what is done for a command
pub data RepoStep : Type 0 where
  prepared : List LockStep → RepoStep
  ran : Command → RepoStep
  reservation_released : RepoOperationReservation → RepoStep

-- What a command meets: the row that GetByID reads, the secrets, and what restic says of locks in an
-- environment. `outside` is for the command itself.
pub record CommandEnv : Type 0 where
  pub row : ℕ → Result Repository
  pub outside : Outside
  pub gcm : Gcm
  pub key : Text
  pub json : LockJson
  pub locks : List Text → LockEnv
  pub search_fuel : ℕ
  pub rounds : ℕ

-- How a call ends: it waits for a channel, it still prepares when the fuel runs out, the release
-- panics, or it returns.
pub data RunEnd : Type 0 where
  waiting_for : (channel : ℕ) → RunEnd
  preparing : RunEnd
  panicked : RunEnd
  returned : RepoOps → List RepoStep → Result ExecResult → RunEnd

-- the deferred release, of the service as it is then
unfoldable pub finish :
    RepoOps → RepoOperationReservation → List RepoStep → Result ExecResult → RunEnd
unfolding release_repo_operation
finish ops r trace result = elim (release_repo_operation ops r) [
  | none ↦ panicked
  | some after ↦ returned after (reservation_released r ∷ trace) result
]

module _ (env : CommandEnv) (repo_id : ℕ) (trigger : Text) (args : List Text) where
  -- what comes of the locks, before the command runs in this environment
  unfoldable pub prepare : List Text → Option (List LockStep × Option Error)
  unfolding prepare_scheduled_restic_locks scheduled_command_needs_lock
  prepare vars =
      if trigger == codes "scheduled" && scheduled_command_needs_lock args
      then prepare_scheduled_restic_locks env.json (env.locks vars) env.search_fuel env.rounds []
      else some ([], none)

  unfoldable pub run_prepared :
      RepoOps
      → RepoOperationReservation
      → List RepoStep
      → List Text
      → Option (List LockStep × Option Error)
      → RunEnd
  unfolding finish
  run_prepared ops r trace vars none = preparing
  run_prepared ops r trace vars (some (locks, some e)) =
      finish ops r (prepared locks ∷ trace) (err e)
  run_prepared ops r trace vars (some (locks, none)) =
      let command : Command = record { trigger = trigger; args = args; env = vars } in
      finish ops r (ran command ∷ prepared locks ∷ trace) (ok (env.outside.run (command ∷ [])))

  unfoldable pub run_in :
      RepoOps → RepoOperationReservation → List RepoStep → Result (List Text) → RunEnd
  unfolding finish run_prepared prepare
  run_in ops r trace (err e) = finish ops r trace (err (wrapped (codes "build env") e))
  run_in ops r trace (ok vars) = run_prepared ops r trace vars (prepare vars)

  unfoldable pub run_row :
      RepoOps → RepoOperationReservation → List RepoStep → Result Repository → RunEnd
  unfolding finish run_in build_restic_runtime
  run_row ops r trace (err e) = finish ops r trace (err (wrapped (codes "get repo") e))
  run_row ops r trace (ok repo) =
      run_in ops r trace (build_restic_runtime env.outside env.gcm env.key repo)

  -- with a reservation, and the service as it is when the reservation is released
  unfoldable pub run_restic_command_with_reservation :
      RepoOps → RepoOperationReservation → List RepoStep → RunEnd
  unfolding run_row
  run_restic_command_with_reservation ops r trace = run_row ops r trace (env.row repo_id)

  run_attempt : Attempt × RepoOps → List RepoStep → RunEnd
  unfolding run_restic_command_with_reservation
  run_attempt (acquired r, ops) trace = run_restic_command_with_reservation ops r trace
  run_attempt (busy id kind, ops) trace = returned ops trace (err (repository_busy id kind))
  run_attempt (blocked channel, ops) trace = waiting_for channel

  -- without one; nobody else touches the service in between
  unfoldable pub run_restic_command : Option ℕ → RepoOps → List RepoStep → RunEnd
  unfolding run_attempt acquire_repo_operation classify_repo_operation
  run_restic_command task_id ops trace =
      let (kind, class) = classify_repo_operation task_id args in
      run_attempt (acquire_repo_operation ops repo_id kind class true) trace
