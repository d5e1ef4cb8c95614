-- ===== src/Repo/Maintenance.antt =====
-- Checks, prunes and initialisation of a repository: InitRepo, CheckRepo, PruneRepo,
-- ScheduledCheckRepo, ScheduledPruneRepo and buildMaintenanceArgs of
-- backend/internal/service/repo_service.go, and RecordCheckResult of
-- backend/internal/service/repo_cache_service.go.
pub mod Settled
pub mod Async
use auto_restic.Shared.{
  ◌==◌, ◌||◌, ◌++◌, ℕ, ℤ, pos, negsuc, nat_eq, suc, Bool, true, false, List, [], ◌∷◌, Option, none,
  some, Text, Eq-Text, codes, is_empty, is_some, is_zero, trim_space, if◌then◌else◌,
}
use auto_restic.Exec.{Error, parse_error, Result, ok, err, ExecResult, empty_result}
use auto_restic.Cache.State.{Status, running, success, failed}
use auto_restic.Output.Marker.{decimal}
use auto_restic.Repo.{Repository}

-- what is written of the check of a repository
pub record CheckNote : Type 0 where
  pub status : Status
  pub progress : ℕ
  pub is_success : Bool
  pub last_error : Text
  pub log_id : Option ℕ

abbrev pub running_note : Option ℕ → CheckNote
running_note log_id = record {
  status = running;
  progress = 10;
  is_success = false;
  last_error = [];
  log_id = log_id;
}

abbrev pub failed_note : Text → CheckNote
failed_note message = record {
  status = failed;
  progress = 100;
  is_success = false;
  last_error = message;
  log_id = none;
}

-- what is done for a repository
pub data Deed : Type 0 where
  noted_check : CheckNote → Deed
  ran_restic : (trigger : Text) → List Text → Deed
  marked_stats_stale : Deed
  queued_initial_import : Deed

-- The row; what a command returns, by what was done before, with the command at the front; the lists
-- that encoding/json reads; and the texts of errors.
pub record MaintenanceEnv : Type 0 where
  pub row : Result Repository
  pub run : List Deed → ExecResult × Option Error
  pub strings : Text → Option (List Text)
  pub error_text : Error → Text

abbrev pub int_text : ℤ → Text
unfolding decimal
int_text (pos n) = decimal n
int_text (negsuc n) = 45 ∷ decimal (suc n)

-- int64Ptr
abbrev pub int64_ptr : ℕ → Option ℕ
int64_ptr v = if nat_eq v 0 then none else some v

-- RecordCheckResult, without its write
unfoldable pub record_check_result : (Error → Text) → Option Error → ℤ → ℕ → CheckNote
record_check_result error_text (some e) exit_code log_id = record {
  status = failed;
  progress = 100;
  is_success = false;
  last_error = error_text e;
  log_id = int64_ptr log_id;
}
record_check_result error_text none exit_code log_id =
    if is_zero exit_code
    then record {
      status = success;
      progress = 100;
      is_success = true;
      last_error = [];
      log_id = int64_ptr log_id;
    }
    else record {
      status = failed;
      progress = 100;
      is_success = false;
      last_error = codes "check exited with code " ++ int_text exit_code;
      log_id = int64_ptr log_id;
    }

with_extra : Text → Option (List Text) → Result (List Text)
with_extra command none = err (parse_error (command ++ codes " args"))
with_extra command (some extra) = ok (command ∷ extra)

unfoldable pub build_maintenance_args :
    (Text → Option (List Text)) → Text → Text → Result (List Text)
unfolding with_extra
build_maintenance_args strings command raw =
    let trimmed = trim_space raw in
    if is_empty trimmed || trimmed == codes "[]"
    then ok (command ∷ [])
    else with_extra command (strings trimmed)

module _ (env : MaintenanceEnv) (trigger : Text) where
  check_with : Result (List Text) → List Deed → List Deed × (ExecResult × Option Error)
  unfolding record_check_result
  check_with (err e) trace = (trace, (empty_result, some e))
  check_with (ok args) trace =
      let ran = ran_restic trigger args ∷ noted_check (running_note none) ∷ trace in
      let (result, e) = env.run ran in
      (
        noted_check (record_check_result env.error_text e result.exit_code result.log_id) ∷ ran,
        (result, e),
      )

  check_row : Result Repository → List Deed → List Deed × (ExecResult × Option Error)
  unfolding check_with build_maintenance_args
  check_row (err e) trace = (trace, (empty_result, some e))
  check_row (ok repo) trace =
      check_with (build_maintenance_args env.strings (codes "check") repo.check_args) trace

  -- CheckRepo and ScheduledCheckRepo, by their trigger
  unfoldable pub check_repo : List Deed → List Deed × (ExecResult × Option Error)
  unfolding check_row
  check_repo trace = check_row env.row trace

  is_done : ExecResult × Option Error → Bool
  is_done (result, e) = if is_some e then false else is_zero result.exit_code

  prune_with : Result (List Text) → List Deed → List Deed × (ExecResult × Option Error)
  unfolding is_done
  prune_with (err e) trace = (trace, (empty_result, some e))
  prune_with (ok args) trace =
      let ran = ran_restic trigger args ∷ trace in
      ((if is_done (env.run ran) then marked_stats_stale ∷ ran else ran), env.run ran)

  prune_row : Result Repository → List Deed → List Deed × (ExecResult × Option Error)
  unfolding prune_with build_maintenance_args
  prune_row (err e) trace = (trace, (empty_result, some e))
  prune_row (ok repo) trace =
      prune_with (build_maintenance_args env.strings (codes "prune") repo.prune_args) trace

  -- PruneRepo and ScheduledPruneRepo, by their trigger
  unfoldable pub prune_repo : List Deed → List Deed × (ExecResult × Option Error)
  unfolding prune_row
  prune_repo trace = prune_row env.row trace

  -- InitRepo, whose trigger is "manual"
  unfoldable pub init_repo : List Deed → List Deed × (ExecResult × Option Error)
  unfolding is_done
  init_repo trace =
      let ran = ran_restic trigger (codes "init" ∷ []) ∷ trace in
      ((if is_done (env.run ran) then queued_initial_import ∷ ran else ran), env.run ran)

abbrev pub scheduled_check_repo :
    MaintenanceEnv → List Deed → List Deed × (ExecResult × Option Error)
scheduled_check_repo env = check_repo env (codes "scheduled")

abbrev pub scheduled_prune_repo :
    MaintenanceEnv → List Deed → List Deed × (ExecResult × Option Error)
scheduled_prune_repo env = prune_repo env (codes "scheduled")
