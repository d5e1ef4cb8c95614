-- ===== src/Repo/Locks/Order.antt =====
-- What a scheduled command does about locks, and in which order: prepareScheduledResticLocks of
-- backend/internal/service/repo_service.go.
use auto_restic.Shared.{
  subst, ◌≡◌, ◌&&◌, inl, inr, refl, ℕ, zero, suc, Bool, true, false, not, List, [], ◌∷◌, Option,
  none, some, Text, All, Bool-cases,
}
use auto_restic.Exec.{deadline_exceeded, Error, Result, ok, err}
use auto_restic.Repo.Access.{has_restic_lock_ids}
use auto_restic.Repo.Locks.{
  ResticLockInfo, LockJson, LockEnv, LockStep, listed, waited, unlocked, LockDecision, go_on,
  wait_for_lock, unlock, failed, Processes, ResticLockOwnerStatus, restic_lock_process_status,
  is_ours_to_check, any_live, has_current_instance_live_lock, after_status, no_locks, by_owner,
  decide_locks, list_repository_locks, next_step, prepare_scheduled_restic_locks, unlock_error,
}

-- A lock that is not held by a live process of this instance.
abbrev pub NotLive : Processes → ℕ → Text → ResticLockInfo → Type 0
NotLive p fuel host lock =
    is_ours_to_check host lock ≡ true
    → (status : ResticLockOwnerStatus) × ((restic_lock_process_status p fuel lock.pid ≡ some status)
        × ((status.current_instance && status.alive) ≡ false))

any_live-false :
    (p : Processes) (fuel : ℕ) (host : Text) (locks : List ResticLockInfo)
    → any_live p fuel host locks ≡ some false
    → All (NotLive p fuel host) locks
unfolding any_live
any_live-false p fuel host [] h = tt
any_live-false p fuel host (lock ∷ locks) h = elim (Bool-cases (is_ours_to_check host lock)) [
  | inr other ↦ ((λ e. cc), any_live-false p fuel host locks (rw other at h))
  | inl ours ↦
      go (restic_lock_process_status p fuel lock.pid) refl (any_live-false p fuel host locks)
        (rw ours at h)
]
  where
    go :
        (v : Option ResticLockOwnerStatus)
        → restic_lock_process_status p fuel lock.pid ≡ v
        → (any_live p fuel host locks ≡ some false → All (NotLive p fuel host) locks)
        → after_status v (any_live p fuel host locks) ≡ some false
        → All (NotLive p fuel host) (lock ∷ locks)
    go none e rest h = cc
    go (some status) e rest h = elim (Bool-cases (status.current_instance && status.alive)) [
      | inl live ↦ cc (rw live at h)
      | inr not_live ↦ ((λ ours. (status, (e, not_live))), rest (rw not_live at h))
    ]

module _ (json : LockJson) (env : LockEnv) (search_fuel : ℕ) where
  -- What restic listed says that there are locks, or may be, and that none of them is held by a live
  -- process of this instance, if the host has a name.
  pub record MayUnlock (trace : List LockStep) : Type 0 where
    pub locks : List ResticLockInfo
    pub raw : Text
    pub listing : list_repository_locks json (env.run trace) ≡ ok (locks, raw)
    pub locked : (no_locks locks && not (has_restic_lock_ids raw)) ≡ false
    pub not_live :
        (host : Text)
        → (env.processes trace).hostname ≡ ok host
        → All (NotLive (env.processes trace) search_fuel host) locks

  -- what restic listed says that there is no lock
  pub record IsUnlocked (trace : List LockStep) : Type 0 where
    pub locks : List ResticLockInfo
    pub raw : Text
    pub listing : list_repository_locks json (env.run trace) ≡ ok (locks, raw)
    pub none_there : (no_locks locks && not (has_restic_lock_ids raw)) ≡ true

  -- what a decision rests on
  abbrev Grounds : List LockStep → LockDecision → Type 0
  Grounds trace go_on = IsUnlocked trace
  Grounds trace unlock = MayUnlock trace
  Grounds trace wait_for_lock = Unit
  Grounds trace (failed e) = Unit

  next_step-Grounds :
      (trace : List LockStep) (d : LockDecision)
      → next_step json env search_fuel trace ≡ some d
      → Grounds trace d
  unfolding next_step decide_locks has_current_instance_live_lock
  next_step-Grounds trace d h = listing (list_repository_locks json (env.run trace)) refl h
    where
      p : Processes
      p = env.processes trace

      owner :
          (locks : List ResticLockInfo) (raw : Text)
          → list_repository_locks json (env.run trace) ≡ ok (locks, raw)
          → (no_locks locks && not (has_restic_lock_ids raw)) ≡ false
          → (v : Option Bool) → has_current_instance_live_lock p search_fuel locks ≡ v
          → (d : LockDecision) → by_owner v ≡ some d
          → Grounds trace d
      owner locks raw l locked none e d h = cc
      owner locks raw l locked (some true) e d h =
          let same : wait_for_lock ≡ d = cc h in subst (Grounds trace) same tt
      owner locks raw l locked (some false) e d h =
          let same : unlock ≡ d = cc h in
          subst (Grounds trace) same (record {
            locks = locks;
            raw = raw;
            listing = l;
            locked = locked;
            not_live = λ host named.
                any_live-false p search_fuel host locks
                  (rw (named, has_current_instance_live_lock) at e);
          })

      listing :
          (v : Result (List ResticLockInfo × Text))
          → list_repository_locks json (env.run trace) ≡ v
          → decide_locks p search_fuel v ≡ some d
          → Grounds trace d
      listing (err e) l h = let same : failed e ≡ d = cc h in subst (Grounds trace) same tt
      listing (ok (locks, raw)) l h =
          elim (Bool-cases (no_locks locks && not (has_restic_lock_ids raw))) [
            | inl clear ↦
                let same : go_on ≡ d = cc (rw clear at h) in
                subst (Grounds trace) same
                  (record { locks = locks; raw = raw; listing = l; none_there = clear })
            | inr locked ↦
                owner locks raw l locked (has_current_instance_live_lock p search_fuel locks) refl d
                  (rw locked at h)
          ]

  -- Each unlocking follows a listing that allows it.
  abbrev pub IsCareful : List LockStep → Type 0
  IsCareful [] = Unit
  IsCareful (unlocked ∷ trace) = MayUnlock trace × IsCareful trace
  IsCareful (listed ∷ trace) = IsCareful trace
  IsCareful (waited ∷ trace) = IsCareful trace

  -- how the preparation of a command may end
  abbrev pub Ended : Option (List LockStep × Option Error) → Type 0
  Ended none = Unit
  Ended (some (trace, some e)) = IsCareful trace
  Ended (some (trace, none)) = IsCareful trace × IsUnlocked trace

  pub ended_lem :
      (rounds : ℕ) (trace : List LockStep)
      → IsCareful trace
      → Ended (prepare_scheduled_restic_locks json env search_fuel rounds trace)
  unfolding prepare_scheduled_restic_locks
  ended_lem zero trace h = tt
  ended_lem (suc rounds) trace h =
      decided (next_step json env search_fuel (listed ∷ trace)) refl
        (ended_lem rounds (waited ∷ listed ∷ trace) h)
        (λ may. ended_lem rounds (unlocked ∷ listed ∷ trace) (may, h))
    where
      seen : List LockStep
      seen = listed ∷ trace

      more : List LockStep → Option (List LockStep × Option Error)
      more = prepare_scheduled_restic_locks json env search_fuel rounds

      after_wait :
          (b : Bool)
          → Ended (more (waited ∷ seen))
          → Ended (elim b [
            | true ↦ some (waited ∷ seen, some deadline_exceeded)
            | false ↦ more (waited ∷ seen)
          ])
      after_wait true later = h
      after_wait false later = later

      after_unlock :
          (e : Option Error)
          → MayUnlock seen
          → Ended (more (unlocked ∷ seen))
          → Ended
              (elim e [ some e ↦ some (unlocked ∷ seen, some e) | none ↦ more (unlocked ∷ seen) ])
      after_unlock (some e) may later = (may, h)
      after_unlock none may later = later

      decided :
          (v : Option LockDecision)
          → next_step json env search_fuel seen ≡ v
          → Ended (more (waited ∷ seen))
          → (MayUnlock seen → Ended (more (unlocked ∷ seen)))
          → Ended (elim v [
            | none ↦ none
            | some (failed e) ↦ some (seen, some e)
            | some go_on ↦ some (seen, none)
            | some wait_for_lock ↦ elim (env.is_done (waited ∷ seen)) [
              | true ↦ some (waited ∷ seen, some deadline_exceeded)
              | false ↦ more (waited ∷ seen)
            ]
            | some unlock ↦ elim (unlock_error (env.run (unlocked ∷ seen))) [
              | some e ↦ some (unlocked ∷ seen, some e)
              | none ↦ more (unlocked ∷ seen)
            ]
          ])
      decided none eq wait go = tt
      decided (some (failed e)) eq wait go = h
      decided (some go_on) eq wait go = (h, next_step-Grounds seen go_on eq)
      decided (some wait_for_lock) eq wait go = after_wait (env.is_done (waited ∷ seen)) wait
      decided (some unlock) eq wait go =
          let may = next_step-Grounds seen unlock eq in
          after_unlock (unlock_error (env.run (unlocked ∷ seen))) may (go may)

  -- A scheduled command has the locks removed only behind a listing that says that there are some,
  -- or may be, and, if the name of the host can be read, shows none that a live process of this
  -- instance holds: every decision to remove them rests on such a listing, whether the preparation
  -- ends or not, and in one that ends each removal follows such a decision, however often it
  -- lists, waits and unlocks. It goes on only behind a listing that shows no lock.
  pub prepare_careful :
      (rounds : ℕ)
      → Ended (prepare_scheduled_restic_locks json env search_fuel rounds [])
        × ((trace : List LockStep)
            → next_step json env search_fuel trace ≡ some unlock
            → MayUnlock trace)
  prepare_careful rounds = (ended_lem rounds [] tt, λ trace e. next_step-Grounds trace unlock e)
