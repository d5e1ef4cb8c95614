-- ===== src/Examples/CommandRuns.antt =====
-- Commands on a repository that is reserved, and checks: backend/internal/service/repo_service.go.
use auto_restic.Shared.{
  some, true, ◌≡◌, refl, pos, [], ◌∷◌, none, Text, codes, lookup, insert, Eq-ℕ,
}
use auto_restic.Exec.{external, ok, err, empty_result}
use auto_restic.Reservation.{exclusive, RepoOperationReservation, acquire_repo_operation}
use auto_restic.Reservation.Threads.{
  Call, holding, System, attempt, initial, enter, Reach, start, next,
}
use auto_restic.Reservation.Release.{released}
use auto_restic.Repo.{Repository}
use auto_restic.Repo.Cipher.{encrypt}
use auto_restic.Repo.Create.{new_repository}
use auto_restic.Repo.Commands.{CommandEnv, run_restic_command_with_reservation}
use auto_restic.Repo.Commands.Guarded.{IsGuarded, run_reserved-IsGuarded}
use auto_restic.Repo.Maintenance.{record_check_result, MaintenanceEnv, check_repo}
use auto_restic.Repo.Maintenance.Settled.{IsSettled, check_repo_settles}
use auto_restic.Repo.Maintenance.Async
use auto_restic.Repo.Maintenance.Async.{AsyncCheck, Reach_noted}
use auto_restic.Examples.SaveRuns.{toy, key, nonce, home_request, nowhere}
use auto_restic.Examples.LockRuns.{lock_json, lock_env}

abbrev prune_call : Call
prune_call = record { repo_id = 1; kind = codes "prune"; class = exclusive; wait = true }

abbrev reserved : System
reserved = attempt initial 0 prune_call

reserved-Reach : Reach reserved
unfolding attempt acquire_repo_operation lookup insert
reserved-Reach = next start (enter 0 prune_call refl)

abbrev reservation : RepoOperationReservation
reservation = record {
  repo_id = 1;
  state = record { class = exclusive; kind = codes "prune"; done = 0 };
}

reserved_lem : reserved.threads 0 ≡ holding reservation
unfolding attempt acquire_repo_operation lookup insert
reserved_lem = refl

abbrev stored_password : Text
stored_password = elim (encrypt toy key (ok nonce) (codes "p")) [ ok s ↦ s | err e ↦ [] ]

abbrev home : Repository
home =
    new_repository home_request (codes "/srv/home")
      (record { password = stored_password; webdav_password = []; rclone_config = [] }) 1

abbrev command_env : CommandEnv
command_env = record {
  row = λ id. ok home;
  outside = nowhere;
  gcm = toy;
  key = key;
  json = lock_json;
  locks = λ vars. lock_env;
  search_fuel = 13;
  rounds = 4;
}

run_reserved-IsGuarded_example :
    IsGuarded command_env 1
      (codes "scheduled")
      (codes "prune" ∷ [])
      (released reserved.service reservation)
      reservation
      []
      (run_restic_command_with_reservation command_env 1
        (codes "scheduled")
        (codes "prune" ∷ [])
        reserved.service
        reservation
        [])
run_reserved-IsGuarded_example =
    run_reserved-IsGuarded command_env (codes "scheduled") (codes "prune" ∷ []) reserved-Reach 0
      reservation [] reserved_lem

abbrev check_env : MaintenanceEnv
check_env = record {
  row = ok home;
  run = λ deeds. (record empty_result { exit_code = pos 1; log_id = 5 }, none);
  strings = λ text. none;
  error_text = λ e. codes "failed";
}

check_repo_settles_example :
    IsSettled check_env (codes "manual") [] (check_repo check_env (codes "manual") [])
check_repo_settles_example = check_repo_settles check_env (codes "manual") []

-- a check that has ended with an error while its request still waits
abbrev ended_check : AsyncCheck
unfolding record_check_result
ended_check = record Async.asked {
  started = some 5;
  worker = Async.through empty_result (some (external []));
  start_err = some (external []);
  check = Async.result_note (λ e. codes "failed") empty_result (some (external []));
}
