-- ===== src/Repo/Commands/Guarded.antt =====
-- What a command on a repository does, and in which order: runResticCommandWithReservation of
-- backend/internal/service/repo_service.go, composed of the reservation, the environment and the
-- preparation.
use auto_restic.Shared.{
  ◌≡◌, ◌⊎◌, ◌==◌, ◌&&◌, inl, inr, refl, ℕ, Bool, true, false, List, [], ◌∷◌, Option, none, some,
  Text, Eq-Text, codes, Bool-cases, subst,
}
use auto_restic.Exec.{Error, wrapped, Result, ok, err, ExecResult}
use auto_restic.Reservation.{
  RepoOperationReservation, RepoOps, release_repo_operation, scheduled_command_needs_lock,
}
use auto_restic.Reservation.Threads.{System, Reach, holding}
use auto_restic.Reservation.Release.{released, release-released, Reach-IsExclusive}
use auto_restic.Repo.{Repository}
use auto_restic.Repo.Runtime.{build_restic_runtime}
use auto_restic.Repo.Locks.{LockStep}
use auto_restic.Repo.Locks.Order.{IsCareful, IsUnlocked, Ended, prepare_careful}
use auto_restic.Repo.Commands.{
  RepoStep, prepared, ran, reservation_released, CommandEnv, RunEnd, preparing, returned, finish,
  prepare, run_prepared, run_in, run_row, run_restic_command_with_reservation,
}

module _ (env : CommandEnv) (repo_id : ℕ) (trigger : Text) (args : List Text) where
  abbrev pub takes_locks : Bool
  takes_locks = trigger == codes "scheduled" && scheduled_command_needs_lock args

  -- what a preparation that went well rests on
  abbrev pub IsReady : List Text → List LockStep → Type 0
  IsReady vars locks =
      ((takes_locks ≡ false) × (locks ≡ []))
      ⊎ ((takes_locks ≡ true)
          × (IsCareful env.json (env.locks vars) env.search_fuel locks
              × IsUnlocked env.json (env.locks vars) env.search_fuel locks))

  -- The steps of a call and its result.
  pub data IsCourse (r : RepoOperationReservation) (trace : List RepoStep)
      : List RepoStep → Result ExecResult → Type 0 where
    -- no row, or no environment
    not_built : (e : Error) → IsCourse r trace (reservation_released r ∷ trace) (err e)
    -- locks that are in the way
    not_ready :
        (locks : List LockStep) (e : Error)
        → IsCourse r trace (reservation_released r ∷ prepared locks ∷ trace) (err e)
    ran_ready :
        {repo : Repository} {vars : List Text} {locks : List LockStep}
        → env.row repo_id ≡ ok repo
        → build_restic_runtime env.outside env.gcm env.key repo ≡ ok vars
        → IsReady vars locks
        → IsCourse r trace
            (reservation_released r
              ∷ ran (record { trigger = trigger; args = args; env = vars })
              ∷ prepared locks
              ∷ trace)
            (ok (env.outside.run (record { trigger = trigger; args = args; env = vars } ∷ [])))

  -- A call returns with the reservation released, or its preparation has not ended.
  abbrev pub IsGuarded : RepoOps → RepoOperationReservation → List RepoStep → RunEnd → Type 0
  IsGuarded after r trace end =
      ((end ≡ preparing) × ((vars : List Text) × (prepare env repo_id trigger args vars ≡ none)))
      ⊎ ((steps : List RepoStep) × ((result : Result ExecResult) × ((end
                ≡ returned after steps result)
              × IsCourse r trace steps result)))

  prepare-IsReady :
      (vars : List Text) (locks : List LockStep)
      → prepare env repo_id trigger args vars ≡ some (locks, none)
      → IsReady vars locks
  unfolding prepare
  prepare-IsReady vars locks h = elim (Bool-cases takes_locks) [
    | inr free ↦ inl (free, cc (rw free at h))
    | inl bound ↦ inr (
      bound,
      subst (Ended env.json (env.locks vars) env.search_fuel) (rw bound at h)
          (prepare_careful env.json (env.locks vars) env.search_fuel env.rounds).0,
    )
  ]

  module _ (ops after : RepoOps) (r : RepoOperationReservation) (trace : List RepoStep)
      (releases : release_repo_operation ops r ≡ some after) where
    finish_lem :
        (steps : List RepoStep) (result : Result ExecResult)
        → finish ops r steps result ≡ returned after (reservation_released r ∷ steps) result
    unfolding finish
    finish_lem steps result = rw (releases, finish) refl

    run_in-IsGuarded :
        (repo : Repository)
        → env.row repo_id ≡ ok repo
        → (vars : Result (List Text)) → build_restic_runtime env.outside env.gcm env.key repo ≡ vars
        → IsGuarded after r trace (run_in env repo_id trigger args ops r trace vars)
    unfolding run_in run_prepared
    run_in-IsGuarded repo found (err e) built =
        inr (_, (_, (finish_lem trace (err (wrapped (codes "build env") e)), not_built _)))
    run_in-IsGuarded repo found (ok vars) built = go (prepare env repo_id trigger args vars) refl
      where
        go :
            (v : Option (List LockStep × Option Error))
            → prepare env repo_id trigger args vars ≡ v
            → IsGuarded after r trace (run_prepared env repo_id trigger args ops r trace vars v)
        go none e = inl (refl, (vars, e))
        go (some (locks, some x)) e =
            inr (_, (_, (finish_lem (prepared locks ∷ trace) (err x), not_ready locks x)))
        go (some (locks, none)) e =
            inr (_, (_, (finish_lem _ _, ran_ready found built (prepare-IsReady vars locks e))))

-- A command for which a repository is reserved, in any state that requests reach, runs at most once,
-- between the reservation and its release, in the environment of the repository's row; if it is
-- scheduled and takes locks, behind a listing that shows none. Its result is that command's, or it
-- has an error and did not run. The release does not panic and leaves the repository free, on every
-- path but one: a preparation that does not end.
pub run_reserved-IsGuarded :
    (env : CommandEnv) (trigger : Text) (args : List Text) {s : System}
    → Reach s
    → (i : ℕ) (r : RepoOperationReservation) (trace : List RepoStep) → s.threads i ≡ holding r
    → IsGuarded env r.repo_id trigger args
        (released s.service r)
        r
        trace
        (run_restic_command_with_reservation env r.repo_id trigger args s.service r trace)
unfolding run_restic_command_with_reservation run_row
run_reserved-IsGuarded env trigger args {s} reach i r trace holds = go (env.row r.repo_id) refl
  where
    releases : release_repo_operation s.service r ≡ some (released s.service r)
    releases = release-released s i r (Reach-IsExclusive reach) holds

    go :
        (v : Result Repository)
        → env.row r.repo_id ≡ v
        → IsGuarded env r.repo_id trigger args
            (released s.service r)
            r
            trace
            (run_row env r.repo_id trigger args s.service r trace v)
    go (err e) found = inr (
      _,
      (
        _,
        (
          finish_lem env r.repo_id trigger args s.service (released s.service r) r trace releases
              trace (err (wrapped (codes "get repo") e)),
          not_built _,
        ),
      ),
    )
    go (ok repo) found =
        run_in-IsGuarded env r.repo_id trigger args s.service (released s.service r) r trace
          releases repo found (build_restic_runtime env.outside env.gcm env.key repo) refl
