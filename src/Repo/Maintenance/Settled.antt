-- ===== src/Repo/Maintenance/Settled.antt =====
-- How a check ends: CheckRepo and ScheduledCheckRepo of
-- backend/internal/service/repo_service.go.
use auto_restic.Shared.{
  ◌≡◌, ◌≢◌, ◌⊎◌, ◌↔◌, refl, inl, inr, ℕ, ℤ, true, List, ◌∷◌, Option, none, some, Text, codes,
  is_zero, Bool-cases,
}
use auto_restic.Exec.{Error, Result, ok, err, ExecResult, empty_result}
use auto_restic.Cache.State.{running, success}
use auto_restic.Repo.{Repository}
use auto_restic.Repo.Maintenance.{
  CheckNote, running_note, Deed, noted_check, ran_restic, MaintenanceEnv, record_check_result,
  build_maintenance_args, check_repo, check_row, check_with,
}

record_success :
    (error_text : Error → Text) (e : Option Error) (code : ℤ) (log_id : ℕ)
    → ((record_check_result error_text e code log_id).status ≢ running)
      × (((record_check_result error_text e code log_id).status ≡ success)
          ↔ ((e ≡ none) × (is_zero code ≡ true)))
unfolding record_check_result
record_success error_text (some e) code log_id = ((λ h. cc), ((λ h. cc), λ h. cc))
record_success error_text none code log_id = elim (Bool-cases (is_zero code)) [
  | inl zero ↦ rw zero ((λ h. cc), ((λ h. (refl, refl)), λ h. refl))
  | inr other ↦ rw other ((λ h. cc), ((λ h. cc), λ h. cc (h.1)))
]

module _ (env : MaintenanceEnv) (trigger : Text) where
  -- nothing was done, or the command was run between two notes
  abbrev pub IsSettled : List Deed → List Deed × (ExecResult × Option Error) → Type 0
  IsSettled trace (deeds, (result, e)) =
      ((deeds ≡ trace) × ((result ≡ empty_result) × ((x : Error) × (e ≡ some x))))
      ⊎ ((repo : Repository) × ((args : List Text) × ((note : CheckNote) × ((env.row ≡ ok repo)
                × ((build_maintenance_args env.strings (codes "check") repo.check_args ≡ ok args)
                    × ((deeds
                          ≡ noted_check note
                            ∷ ran_restic trigger args
                            ∷ noted_check (running_note none)
                            ∷ trace)
                        × ((note.status ≢ running)
                            × ((note.status ≡ success)
                                ↔ ((e ≡ none) × (is_zero result.exit_code ≡ true))))))))))

  -- A check that is waited for either does nothing and has an error, or runs once with the arguments
  -- of its repository, and is noted as running before and as ended behind it: as a success exactly
  -- when it has no error and exit code zero.
  pub check_repo_settles : (trace : List Deed) → IsSettled trace (check_repo env trigger trace)
  unfolding check_repo check_row check_with
  check_repo_settles trace = from_row env.row refl
    where
      from_args :
          (repo : Repository)
          → env.row ≡ ok repo
          → (v : Result (List Text))
          → build_maintenance_args env.strings (codes "check") repo.check_args ≡ v
          → IsSettled trace (check_with env trigger v trace)
      from_args repo found (err e) built = inl (refl, (refl, (e, refl)))
      from_args repo found (ok args) built =
          let (result, e) =
            env.run (ran_restic trigger args ∷ noted_check (running_note none) ∷ trace) in
          let (settled, succeeds) =
            record_success env.error_text e result.exit_code result.log_id in
          inr (repo, (args, (_, (found, (built, (refl, (settled, succeeds)))))))

      from_row :
          (v : Result Repository) → env.row ≡ v → IsSettled trace (check_row env trigger v trace)
      from_row (err e) found = inl (refl, (refl, (e, refl)))
      from_row (ok repo) found =
          from_args repo found (build_maintenance_args env.strings (codes "check") repo.check_args)
            refl
