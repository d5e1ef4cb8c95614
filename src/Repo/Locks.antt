-- ===== src/Repo/Locks.antt =====
-- Locks of restic before a scheduled command: prepareScheduledResticLocks, listRepositoryLocks,
-- parseResticLocks, hasCurrentInstanceLiveLock, resticLockProcessStatus and unlockRepositoryLocks of
-- backend/internal/service/repo_service.go.

pub mod Owner
pub mod Order
pub mod Ready
use auto_restic.Shared.{
  is_some, ◌==◌, ◌&&◌, ◌||◌, not, ℕ, ℤ, pos, negsuc, zero, suc, ltb, nat_eq, Bool, true, false,
  List, [], ◌∷◌, ◌++◌, Option, none, some, Text, Eq-Text, codes, is_empty, is_zero, trim_space,
  split_at, if◌then◌else◌,
}
use auto_restic.Exec.{Error, command_failed, deadline_exceeded, Result, ok, err, ExecResult}
use auto_restic.Repo.Access.{has_restic_lock_ids, is_lock_error, is_exit_11}
pub use auto_restic.Repo.LockList.{ResticLockInfo, unknown_lock, LockJson, no_locks}
unfoldable pub use auto_restic.Repo.LockList.{locks_in, list_output, list_repository_locks}

pub record ResticLockOwnerStatus : Type 0 where
  pub current_instance : Bool
  pub alive : Bool

abbrev pub gone : ResticLockOwnerStatus
gone = record { current_instance = false; alive = false }

abbrev pub someone_else : ResticLockOwnerStatus
someone_else = record { current_instance = false; alive = true }

abbrev pub ourselves : ResticLockOwnerStatus
ourselves = record { current_instance = true; alive = true }

-- The operating system: os.Hostname, os.Getpid, whether /proc has a process, and readProcParentPID.
pub record Processes : Type 0 where
  pub hostname : Result Text
  pub own_pid : ℕ
  pub is_there : ℕ → Bool
  pub parent : ℕ → Result ℤ

abbrev pub is_positive_pid : ℤ → Bool
is_positive_pid (pos n) = not (nat_eq n 0)
is_positive_pid (negsuc n) = false

-- whether a lock is to be looked at, on the host of this name
abbrev pub is_ours_to_check : Text → ResticLockInfo → Bool
is_ours_to_check host lock = (lock.hostname == host) && is_positive_pid lock.pid

-- the rest of the search through the locks, behind one with this owner
abbrev pub after_status : Option ResticLockOwnerStatus → Option Bool → Option Bool
after_status none rest = none
after_status (some status) rest =
    if status.current_instance && status.alive then some true else rest

module _ (p : Processes) where
  -- the process above this one, if the search goes on with it
  unfoldable pub next_pid : ℕ → Option ℕ
  next_pid pid = elim (p.parent pid) [
    | err e ↦ none
    | ok (negsuc n) ↦ none
    | ok (pos n) ↦ if nat_eq n 0 || nat_eq n pid then none else some n
  ]

  -- The search, where none means that the fuel ran out.
  unfoldable pub search_owner : ℕ → ℕ → Option ResticLockOwnerStatus
  unfolding next_pid
  search_owner zero pid = none
  search_owner (suc fuel) pid =
      if ltb 1 pid
      then (if nat_eq pid p.own_pid
          then some ourselves
          else elim (next_pid pid) [ none ↦ some someone_else | some n ↦ search_owner fuel n ])
      else some someone_else

  unfoldable pub restic_lock_process_status : ℕ → ℤ → Option ResticLockOwnerStatus
  unfolding search_owner
  restic_lock_process_status fuel (negsuc n) = some gone
  restic_lock_process_status fuel (pos pid) =
      if nat_eq pid 0
      then some gone
      else if nat_eq pid p.own_pid
      then some ourselves
      else if p.is_there pid
      then search_owner fuel pid
      else some gone

  unfoldable pub any_live : ℕ → Text → List ResticLockInfo → Option Bool
  unfolding restic_lock_process_status
  any_live fuel host [] = some false
  any_live fuel host (lock ∷ locks) =
      let rest = any_live fuel host locks in
      if is_ours_to_check host lock
      then after_status (restic_lock_process_status fuel lock.pid) rest
      else rest

  unfoldable pub has_current_instance_live_lock : ℕ → List ResticLockInfo → Option Bool
  unfolding any_live
  has_current_instance_live_lock fuel locks = elim p.hostname [
    | err e ↦ some false
    | ok host ↦ any_live fuel host locks
  ]

-- what a scheduled command does before it runs
pub data LockStep : Type 0 where
  listed waited unlocked : LockStep

-- What comes from outside: the result of the command that stands at the front of a trace, the
-- processes and whether the context is done, all by what was done before. The context is done when
-- waiting only; a command whose context is done fails.
pub record LockEnv : Type 0 where
  pub run : List LockStep → ExecResult
  pub processes : List LockStep → Processes
  pub is_done : List LockStep → Bool

abbrev pub unlock_error : ExecResult → Option Error
unlock_error r =
    if is_some r.error
    then r.error
    else if is_zero r.exit_code
    then none
    else some (command_failed (trim_space (r.stderr ++ 10 ∷ r.stdout ++ 10 ∷ r.combined_output)))

-- What is to be done behind a listing.
pub data LockDecision : Type 0 where
  go_on wait_for_lock unlock : LockDecision
  failed : Error → LockDecision

abbrev pub by_owner : Option Bool → Option LockDecision
by_owner none = none
by_owner (some true) = some wait_for_lock
by_owner (some false) = some unlock

unfoldable pub decide_locks :
    Processes → ℕ → Result (List ResticLockInfo × Text) → Option LockDecision
unfolding has_current_instance_live_lock has_restic_lock_ids
decide_locks p search_fuel (err e) = some (failed e)
decide_locks p search_fuel (ok (locks, raw)) =
    if no_locks locks && not (has_restic_lock_ids raw)
    then some go_on
    else by_owner (has_current_instance_live_lock p search_fuel locks)

module _ (json : LockJson) (env : LockEnv) (search_fuel : ℕ) where
  -- behind the listing at the front of this trace
  unfoldable pub next_step : List LockStep → Option LockDecision
  unfolding decide_locks list_repository_locks
  next_step trace =
      decide_locks (env.processes trace) search_fuel (list_repository_locks json (env.run trace))

  -- The rounds of the loop. None means that the fuel, or that of a search, ran out.
  unfoldable pub prepare_scheduled_restic_locks :
      ℕ → List LockStep → Option (List LockStep × Option Error)
  unfolding next_step
  prepare_scheduled_restic_locks zero trace = none
  prepare_scheduled_restic_locks (suc rounds) trace =
      let seen = listed ∷ trace in
      elim (next_step seen) [
        | none ↦ none
        | some (failed e) ↦ some (seen, some e)
        | some go_on ↦ some (seen, none)
        | some wait_for_lock ↦ elim (env.is_done (waited ∷ seen)) [
          | true ↦ some (waited ∷ seen, some deadline_exceeded)
          | false ↦ prepare_scheduled_restic_locks rounds (waited ∷ seen)
        ]
        | some unlock ↦ elim (unlock_error (env.run (unlocked ∷ seen))) [
          | some e ↦ some (unlocked ∷ seen, some e)
          | none ↦ prepare_scheduled_restic_locks rounds (unlocked ∷ seen)
        ]
      ]
