-- ===== src/Repo/Locks/Ready.antt =====
-- Whether the preparation of a scheduled command ends: prepareScheduledResticLocks of
-- backend/internal/service/repo_service.go.
use auto_restic.Shared.{
  Eq-Text, ◌==◌, inr, inl, Bool-cases, ◌≡◌, ◌≢◌, ◌≤◌, ◌<◌, ◌+◌, ◌*◌, ◌-◌, refl, ap, ◌∙◌, ℕ, pos,
  zero, suc, Bool, true, false, List, [], ◌∷◌, Option, none, some, Text, arith,
}
use native.Mathlib.Decide.{dec_le}
use auto_restic.Exec.{deadline_exceeded, Error, Result, ok, err, ExecResult}
use auto_restic.Repo.Locks.{
  locks_in, is_lock_error, list_output, unknown_lock, Processes, LockJson, LockEnv, LockStep,
  listed, waited, unlocked, LockDecision, go_on, wait_for_lock, unlock, failed, decide_locks,
  list_repository_locks, next_step, prepare_scheduled_restic_locks, unlock_error,
  has_current_instance_live_lock, any_live, by_owner,
}

abbrev Outcome : Type 0
Outcome = Option (List LockStep × Option Error)

-- how often a command has waited
abbrev pub waits : List LockStep → ℕ
waits [] = 0
waits (waited ∷ trace) = suc (waits trace)
waits (listed ∷ trace) = waits trace
waits (unlocked ∷ trace) = waits trace

-- one round more, unless the locks were removed just now
abbrev pub spare : List LockStep → ℕ
spare (unlocked ∷ trace) = 0
spare _ = 1

exit_11_lem :
    (json : LockJson) (r : ExecResult)
    → r.error ≡ none
    → r.exit_code ≡ pos 11
    → (output : Text) × (list_repository_locks json r ≡ ok (unknown_lock ∷ [], output))
unfolding list_repository_locks
exit_11_lem json r e c = (
  list_output json r,
  rw (e, list_repository_locks)
      (elim (Bool-cases (is_lock_error (list_output json r))) [
        | inl locked ↦ rw (c, locks_in, locked) refl
        | inr other ↦ rw (c, locks_in, other) refl
      ]),
)

-- A lock that nothing is known of is nobody's.
unknown_lem :
    (p : Processes) (fuel : ℕ) (output : Text)
    → decide_locks p fuel (ok (unknown_lock ∷ [], output)) ≡ some unlock
unfolding decide_locks has_current_instance_live_lock any_live
unknown_lem p fuel output = by_host p.hostname
  where
    by_host :
        (v : Result Text)
        → by_owner
            (elim v [ err e ↦ some false | ok host ↦ any_live p fuel host (unknown_lock ∷ []) ])
          ≡ some unlock
    by_host (err e) = refl
    by_host (ok host) = elim (Bool-cases ([] == host)) [
      | inl empty ↦ rw empty refl
      | inr named ↦ rw named refl
    ]

-- a listing and an unlocking, this many times
abbrev pub spinning : ℕ → List LockStep
spinning zero = []
spinning (suc n) = unlocked ∷ listed ∷ spinning n

module _ (json : LockJson) (env : LockEnv) (search_fuel : ℕ) where
  -- As long as each search for an owner ends, a lock of this instance is there for no more than
  -- `most` waits, and the locks are gone once they were removed, a scheduled command is through
  -- with its preparation after a number of rounds that is known beforehand.
  pub prepare_ends :
      (most : ℕ)
      → ((trace : List LockStep) → next_step json env search_fuel trace ≢ none)
      → ((trace : List LockStep)
          → most ≤ waits trace
          → next_step json env search_fuel (listed ∷ trace) ≢ some wait_for_lock)
      → ((trace : List LockStep)
          → next_step json env search_fuel (listed ∷ unlocked ∷ trace) ≢ some unlock)
      → (rounds : ℕ) (trace : List LockStep) → 2 * (most - waits trace) + spare trace < rounds
      → prepare_scheduled_restic_locks json env search_fuel rounds trace ≢ none
  unfolding prepare_scheduled_restic_locks
  prepare_ends most ends leaves helps zero trace enough = absurd (omega arith)
  prepare_ends most ends leaves helps (suc rounds) trace enough =
      decided (next_step json env search_fuel (listed ∷ trace)) refl
        (prepare_ends most ends leaves helps rounds (waited ∷ listed ∷ trace))
        (prepare_ends most ends leaves helps rounds (unlocked ∷ listed ∷ trace))
    where
      seen : List LockStep
      seen = listed ∷ trace

      more : List LockStep → Option (List LockStep × Option Error)
      more = prepare_scheduled_restic_locks json env search_fuel rounds

      Later : List LockStep → Type 0
      Later next = 2 * (most - waits next) + spare next < rounds → more next ≢ none

      after_wait :
          (b : Bool)
          → more (waited ∷ seen) ≢ none
          → ◌≢◌ {A = Outcome}
              (elim b [
                | true ↦ some (waited ∷ seen, some deadline_exceeded)
                | false ↦ more (waited ∷ seen)
              ])
              none
      after_wait true later = λ e. cc
      after_wait false later = later

      after_unlock :
          (e : Option Error)
          → more (unlocked ∷ seen) ≢ none
          → ◌≢◌ {A = Outcome}
              (elim e [ some e ↦ some (unlocked ∷ seen, some e) | none ↦ more (unlocked ∷ seen) ])
              none
      after_unlock (some e) later = λ e. cc
      after_unlock none later = later

      -- An unlocking is never the second in a row.
      not_again :
          (t : List LockStep)
          → next_step json env search_fuel (listed ∷ t) ≡ some unlock
          → spare t ≡ 1
      not_again [] eq = refl
      not_again (listed ∷ t) eq = refl
      not_again (waited ∷ t) eq = refl
      not_again (unlocked ∷ t) eq = absurd (helps t eq)

      decided :
          (v : Option LockDecision)
          → next_step json env search_fuel seen ≡ v
          → Later (waited ∷ seen)
          → Later (unlocked ∷ seen)
          → ◌≢◌ {A = Outcome}
              (elim v [
                | none ↦ none
                | some (failed e) ↦ some (seen, some e)
                | some go_on ↦ some (seen, none)
                | some wait_for_lock ↦ elim (env.is_done (waited ∷ seen)) [
                  | true ↦ some (waited ∷ seen, some deadline_exceeded)
                  | false ↦ more (waited ∷ seen)
                ]
                | some unlock ↦ elim (unlock_error (env.run (unlocked ∷ seen))) [
                  | some e ↦ some (unlocked ∷ seen, some e)
                  | none ↦ more (unlocked ∷ seen)
                ]
              ])
              none
      decided none eq wait go = absurd (ends seen eq)
      decided (some (failed e)) eq wait go = λ e. cc
      decided (some go_on) eq wait go = λ e. cc
      decided (some wait_for_lock) eq wait go = after_wait (env.is_done (waited ∷ seen)) (
          wait (elim (dec_le most (waits trace)) [
            | yes many ↦ absurd (leaves trace many eq)
            | no few ↦ omega arith
          ]))
      decided (some unlock) eq wait go =
          after_unlock (unlock_error (env.run (unlocked ∷ seen)))
            (go (omega (arith, not_again trace eq)))

  -- Where restic answers each listing with exit code 11, and each unlocking without an error, as long
  -- as the command has done nothing but list and unlock in turn, the preparation is not through
  -- after any number of rounds: behind each listing it unlocks, and then lists again, without a wait
  -- in between.
  pub prepare_spins :
      ((n : ℕ)
        → ((env.run (listed ∷ spinning n)).error ≡ none)
          × (((env.run (listed ∷ spinning n)).exit_code ≡ pos 11)
              × (unlock_error (env.run (spinning (suc n))) ≡ none)))
      → (rounds n : ℕ)
      → (prepare_scheduled_restic_locks json env search_fuel rounds (spinning n) ≡ none)
        × (next_step json env search_fuel (listed ∷ spinning n) ≡ some unlock)
  unfolding prepare_scheduled_restic_locks
  prepare_spins locked rounds n = (spins rounds n, unlocks n)
    where
      unlocks : (n : ℕ) → next_step json env search_fuel (listed ∷ spinning n) ≡ some unlock
      unlocks n =
          let t = listed ∷ spinning n in
          let (output, listing) = exit_11_lem json (env.run t) (locked n).0 (locked n).1.0 in
          ap (decide_locks (env.processes t) search_fuel) listing
          ∙ unknown_lem (env.processes t) search_fuel output

      spins :
          (rounds n : ℕ)
          → prepare_scheduled_restic_locks json env search_fuel rounds (spinning n) ≡ none
      spins zero n = refl
      spins (suc rounds) n =
          rw (unlocks n, (locked n).1.1, prepare_scheduled_restic_locks) (spins rounds (suc n))
