-- ===== src/Examples/LockRuns.antt =====
-- Locks before a scheduled command, and a process table: backend/internal/service/repo_service.go.
use auto_restic.Shared.{
  ◌≡◌, ◌≢◌, ◌≤◌, ◌<◌, ◌↔◌, refl, ℕ, zero, suc, ℤ, pos, nat_eq, true, false, List, [], ◌∷◌, none,
  some, Text, codes, Bool-cases, inl, inr, if◌then◌else◌, arith, trim_space, text_eq,
}
use auto_restic.Exec.{external, Result, ok, err, ExecResult, empty_result}
use auto_restic.Repo.Locks.{
  ResticLockInfo, unknown_lock, LockJson, LockEnv, LockStep, listed, unlocked, wait_for_lock,
  unlock, go_on, Processes, ResticLockOwnerStatus, next_pid, search_owner, next_step,
  prepare_scheduled_restic_locks, unlock_error,
}
use auto_restic.Repo.Locks.Owner.{Reaches, search_owner_ends}
use auto_restic.Repo.Locks.Order.{Ended, MayUnlock, prepare_careful}
use auto_restic.Repo.Locks.Ready.{waits, spinning, prepare_ends, prepare_spins}

-- The backend is process 7, which runs restic as 12 below the shell 9.
abbrev parents : ℕ → Result ℤ
parents pid =
    if nat_eq pid 12
    then ok (pos 9)
    else if nat_eq pid 9
    then ok (pos 7)
    else if nat_eq pid 7
    then ok (pos 1)
    else err (external [])

abbrev pub table : Processes
table = record {
  hostname = ok (codes "nas");
  own_pid = 7;
  is_there = λ pid. true;
  parent = parents;
}

falls : (pid n : ℕ) → next_pid table pid ≡ some n → n < pid
unfolding next_pid
falls pid n h = ground arith

search_owner_ends_example :
    (status : ResticLockOwnerStatus) × ((search_owner table 13 12 ≡ some status)
      × ((status.alive ≡ true) × ((status.current_instance ≡ true) ↔ Reaches table 12)))
search_owner_ends_example = search_owner_ends table (λ pid. pid) falls 13 12 (omega arith)

-- a lock of process 12 on this host
abbrev our_lock : ResticLockInfo
our_lock = record unknown_lock { id = codes "0123456789"; hostname = codes "nas"; pid = pos 12 }

abbrev pub lock_json : LockJson
lock_json = record {
  list = λ text. (true, our_lock ∷ []);
  wrapped = λ text. none;
  single = λ text. none;
}

abbrev lists : Text → ExecResult
lists text = record empty_result { stdout = text }

-- The lock is listed until the command has waited once.
abbrev pub held_once : List LockStep → ExecResult
held_once trace = if nat_eq (waits trace) 0 then lists (codes "[]") else lists []

abbrev pub lock_env : LockEnv
lock_env = record { run = held_once; processes = λ trace. table; is_done = λ trace. false }

held_lem :
    (trace : List LockStep)
    → nat_eq (waits trace) 0 ≡ true
    → next_step lock_json lock_env 13 trace ≡ some wait_for_lock
unfolding next_step text_eq trim_space
held_lem trace h = rw h refl

free_lem :
    (trace : List LockStep)
    → nat_eq (waits trace) 0 ≡ false
    → next_step lock_json lock_env 13 trace ≡ some go_on
unfolding next_step text_eq trim_space
free_lem trace h = rw h refl

prepare_careful_example :
    Ended lock_json lock_env 13 (prepare_scheduled_restic_locks lock_json lock_env 13 4 [])
    × ((trace : List LockStep)
        → next_step lock_json lock_env 13 trace ≡ some unlock
        → MayUnlock lock_json lock_env 13 trace)
prepare_careful_example = prepare_careful lock_json lock_env 13 4

prepare_ends_example : prepare_scheduled_restic_locks lock_json lock_env 13 4 [] ≢ none
prepare_ends_example = prepare_ends lock_json lock_env 13 1 ends leaves helps 4 [] (omega arith)
  where
    ends : (trace : List LockStep) → next_step lock_json lock_env 13 trace ≢ none
    ends trace e = elim (Bool-cases (nat_eq (waits trace) 0)) [
      | inl held ↦ cc (held_lem trace held)
      | inr free ↦ cc (free_lem trace free)
    ]

    leaves :
        (trace : List LockStep)
        → 1 ≤ waits trace
        → next_step lock_json lock_env 13 (listed ∷ trace) ≢ some wait_for_lock
    leaves trace many e = elim (Bool-cases (nat_eq (waits trace) 0)) [
      | inl held ↦ absurd (ground arith)
      | inr free ↦ cc (free_lem (listed ∷ trace) free)
    ]

    helps :
        (trace : List LockStep)
        → next_step lock_json lock_env 13 (listed ∷ unlocked ∷ trace) ≢ some unlock
    helps trace e = elim (Bool-cases (nat_eq (waits trace) 0)) [
      | inl held ↦ cc (held_lem (listed ∷ unlocked ∷ trace) held)
      | inr free ↦ cc (free_lem (listed ∷ unlocked ∷ trace) free)
    ]

-- restic says that it is locked until the command has waited, and unlocks without an error
abbrev locked_until_wait : List LockStep → ExecResult
locked_until_wait (listed ∷ trace) =
    if nat_eq (waits trace) 0 then record empty_result { exit_code = pos 11 } else lists []
locked_until_wait _ = empty_result

abbrev locked_env : LockEnv
locked_env = record {
  run = locked_until_wait;
  processes = λ trace. table;
  is_done = λ trace. false;
}

spinning-waits : (n : ℕ) → waits (spinning n) ≡ 0
spinning-waits zero = refl
spinning-waits (suc n) = spinning-waits n

prepare_spins_example :
    (prepare_scheduled_restic_locks lock_json locked_env 13 100 (spinning 0) ≡ none)
    × (next_step lock_json locked_env 13 (listed ∷ spinning 0) ≡ some unlock)
prepare_spins_example = prepare_spins lock_json locked_env 13 locked 100 0
  where
    locked :
        (n : ℕ)
        → ((locked_env.run (listed ∷ spinning n)).error ≡ none)
          × (((locked_env.run (listed ∷ spinning n)).exit_code ≡ pos 11)
              × (unlock_error (locked_env.run (spinning (suc n))) ≡ none))
    locked n = rw (spinning-waits n) (refl, (refl, refl))
