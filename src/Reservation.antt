-- ===== src/Reservation.antt =====
-- One operation at a time on a repository: acquireRepoOperation, releaseRepoOperation and their
-- callers in backend/internal/service/repo_service.go. A state is known by its `done` channel: the
-- program compares pointers, and each state is made with a channel of its own.
pub mod Threads
pub mod Invariant
pub mod Release
pub mod Exclusion
pub mod Classify
pub mod Refine
use auto_restic.Shared.{
  ℕ, suc, Bool, true, false, ◌||◌, List, [], ◌∷◌, Option, none, some, Text, codes, nat_eq, ◌==◌,
  Eq-ℕ, Eq-Text, lookup, insert, erase, if◌then◌else◌,
}

pub data RepoOperationClass : Type 0 where
  read exclusive : RepoOperationClass

pub record RepoOperationState : Type 0 where
  pub class : RepoOperationClass
  pub kind : Text
  pub done : ℕ

pub record RepoOperationReservation : Type 0 where
  pub repo_id : ℕ
  pub state : RepoOperationState

-- `closed` says which channels are closed, `next_channel` is the next that make(chan) gives.
pub record RepoOps : Type 0 where
  pub ops : List (ℕ × RepoOperationState)
  pub closed : ℕ → Bool
  pub next_channel : ℕ

abbrev pub no_ops : RepoOps
no_ops = record { ops = []; closed = λ _. false; next_channel = 0 }

-- What one round of acquireRepoOperation ends in.
pub data Attempt : Type 0 where
  acquired : RepoOperationReservation → Attempt
  -- "repository %d is busy with %s"
  busy : ℕ → Text → Attempt
  -- blocked in the select until the channel is closed, or the context is done
  blocked : (channel : ℕ) → Attempt

unfoldable pub acquire_repo_operation :
    RepoOps → ℕ → Text → RepoOperationClass → Bool → Attempt × RepoOps
acquire_repo_operation s repo_id kind class wait = elim (lookup repo_id s.ops) [
  | none ↦
      let state : RepoOperationState = record {
        class = class;
        kind = kind;
        done = s.next_channel;
      } in
      (
        acquired (record { repo_id = repo_id; state = state }),
        record s { ops = insert repo_id state s.ops; next_channel = suc s.next_channel },
      )
  | some active ↦ (if wait then blocked active.done else busy repo_id active.kind, s)
]

-- close(ch): `none` is the panic on a channel that is closed already.
unfoldable pub close : ℕ → RepoOps → Option RepoOps
close channel s =
    if s.closed channel
    then none
    else some (record s { closed = λ c. if nat_eq channel c then true else s.closed c })

unfoldable pub release_repo_operation : RepoOps → RepoOperationReservation → Option RepoOps
unfolding close
release_repo_operation s r = elim (lookup r.repo_id s.ops) [
  | none ↦ some s
  | some active ↦
      if nat_eq active.done r.state.done
      then close r.state.done (record s { ops = erase r.repo_id s.ops })
      else some s
]

abbrev is_config : List Text → Bool
is_config [] = false
is_config (a ∷ _) = a == codes "config"

-- the switch on args[0]
abbrev command_class : Text → List Text → Text × RepoOperationClass
command_class arg rest =
    if arg == codes "backup"
    then (codes "backup", exclusive)
    else if arg == codes "forget"
    then (codes "forget", exclusive)
    else if arg == codes "prune"
    then (codes "prune", exclusive)
    else if arg == codes "check"
    then (codes "check", exclusive)
    else if arg == codes "init"
    then (codes "init", exclusive)
    else if arg == codes "unlock"
    then (codes "unlock", exclusive)
    else if arg == codes "ls"
    then (codes "sync:files", read)
    else if arg == codes "stats"
    then (codes "sync:stats", read)
    else if arg == codes "snapshots"
    then (codes "sync:core", read)
    else if arg == codes "key"
    then (codes "sync:keys", read)
    else if arg == codes "cat"
    then (if is_config rest then (codes "sync:config", read) else (codes "cat", read))
    else (arg, exclusive)

unfoldable pub classify_repo_operation : Option ℕ → List Text → Text × RepoOperationClass
classify_repo_operation (some _) args = (codes "backup", exclusive)
classify_repo_operation none [] = (codes "unknown", exclusive)
classify_repo_operation none (arg ∷ rest) = command_class arg rest

unfoldable pub scheduled_command_needs_lock : List Text → Bool
scheduled_command_needs_lock [] = false
scheduled_command_needs_lock (arg ∷ _) =
    arg == codes "backup" || arg == codes "check" || arg == codes "prune" || arg == codes "forget"
