-- ===== src/Repo/Create.antt =====
-- Create of backend/internal/service/repo_service.go.
use auto_restic.Shared.{
  ◌&&◌, ℕ, Bool, true, Option, none, some, Text, codes, is_empty, if◌then◌else◌,
}
use auto_restic.Exec.{Error, Result, ok, err}
use auto_restic.Repo.Cipher.{Gcm}
use auto_restic.Repo.{
  Repository, CreateRepoRequest, RepositoryAccessRequest, normalize_repo_endpoint, bool_value,
  string_value,
}
use auto_restic.Repo.Access.{RepositoryProbe}
use auto_restic.Repo.Secrets.{Secrets, encrypt_secrets}
use auto_restic.Repo.Save.{
  queued_initial_import, started_init, SaveEnv, not_asked, running, failed_to_start,
  CreateRepoResult, M, ◌>>=◌, lift, return, ensure_repo_unique, insert_row, follow, probing,
  unlock_if_asked,
}

abbrev pub access_request : CreateRepoRequest → Text → RepositoryAccessRequest
access_request r endpoint = record {
  type = r.type;
  endpoint = endpoint;
  password = r.password;
  rclone_config = r.rclone_config;
  webdav_url = r.webdav_url;
  webdav_user = r.webdav_user;
  webdav_password = r.webdav_password;
}

abbrev pub default_prune_cron_expr : Text
default_prune_cron_expr = codes "0 3 * * 0"

abbrev pub default_prune_args : Text
default_prune_args = codes "[]"

abbrev pub default_check_cron_expr : Text
default_check_cron_expr = codes "0 4 1 * *"

abbrev pub default_check_args : Text
default_check_args = codes "[\"--read-data-subset=10%\"]"

abbrev pub new_repository : CreateRepoRequest → Text → Secrets → ℕ → Repository
new_repository r endpoint secrets id = record {
  id = id;
  name = r.name;
  type = r.type;
  endpoint = endpoint;
  password_encrypted = secrets.password;
  rclone_config_encrypted = secrets.rclone_config;
  webdav_url = r.webdav_url;
  webdav_user = r.webdav_user;
  webdav_password_encrypted = secrets.webdav_password;
  options = if is_empty r.options then codes "{}" else r.options;
  prune_enabled = bool_value r.prune_enabled true;
  prune_cron_expr = string_value r.prune_cron_expr default_prune_cron_expr;
  prune_args = string_value r.prune_args default_prune_args;
  check_enabled = bool_value r.check_enabled true;
  check_cron_expr = string_value r.check_cron_expr default_check_cron_expr;
  check_args = string_value r.check_args default_check_args;
}

abbrev pub created : ℕ → ℕ → CreateRepoResult
created id unlock_log_id = record {
  id = id;
  import_log_id = none;
  init_status = not_asked;
  init_log_id = 0;
  unlock_log_id = unlock_log_id;
}

unfoldable pub imported : CreateRepoResult → Result ℕ → CreateRepoResult × Option Error
imported result (err e) = (result, some e)
imported result (ok log_id) = (record result { import_log_id = some log_id }, none)

unfoldable pub initialised : CreateRepoResult → Result ℕ → CreateRepoResult
initialised result (err e) = record result { init_status = failed_to_start }
initialised result (ok log_id) = record result { init_status = running; init_log_id = log_id }

-- behind the insertion
unfoldable pub follow_up :
    SaveEnv → Bool → RepositoryProbe → CreateRepoResult → M (CreateRepoResult × Option Error)
unfolding imported initialised
follow_up env init_on_create probe result =
    if probe.exists && probe.accessible
    then (follow (queued_initial_import result.id) >>= λ done.
        return (imported result env.initial_import))
    else if init_on_create
    then (follow (started_init result.id) >>= λ done. return (initialised result env.init, none))
    else return (result, none)

module _ (equal_fold : Text → Text → Bool) (gcm : Gcm) (key : Text) where
  -- the result of Create, which has both parts where the import cannot be queued
  unfoldable pub create : SaveEnv → CreateRepoRequest → M (CreateRepoResult × Option Error)
  unfolding normalize_repo_endpoint ensure_repo_unique unlock_if_asked encrypt_secrets insert_row
      follow_up
  create env r = do
    endpoint ← lift (normalize_repo_endpoint r)
    unique ← ensure_repo_unique equal_fold env r.name r.type endpoint 0
    probe ← probing env (access_request r endpoint)
    unlocked ← unlock_if_asked env (access_request r endpoint) r.auto_unlock probe
    secrets ← lift (encrypt_secrets gcm key env.nonces r)
    id ← insert_row env (new_repository r endpoint secrets)
    follow_up env r.init_on_create unlocked.1 (created id unlocked.0)
