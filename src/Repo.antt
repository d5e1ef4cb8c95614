-- ===== src/Repo.antt =====
-- Repositories: backend/internal/service/repo_service.go, with the rows of
-- backend/internal/repository/repo_store.go and the records of backend/internal/model/repository.go.
pub mod Cipher
pub mod Access
pub mod Runtime
pub mod LockList
pub mod Locks
pub mod Commands
pub mod Maintenance
pub mod Secrets
pub mod Save
pub mod Create
pub mod Change
pub mod Update
pub mod Apart
pub mod Untouched
pub mod Registry
use auto_restic.Shared.{
  ◌==◌, ◌||◌, ℕ, Bool, Option, none, some, Text, Eq-Text, codes, is_empty, trim_space,
  if◌then◌else◌,
}
use auto_restic.Exec.{
  endpoint_required, webdav_url_required, unsupported_repository_type, Result, ok, err,
}

-- a row of repositories; the columns that the cache adds when it is listed are not kept
pub record Repository : Type 0 where
  pub id : ℕ
  pub name : Text
  pub type : Text
  pub endpoint : Text
  pub password_encrypted : Text
  pub rclone_config_encrypted : Text
  pub webdav_url : Text
  pub webdav_user : Text
  pub webdav_password_encrypted : Text
  pub options : Text
  pub prune_enabled : Bool
  pub prune_cron_expr : Text
  pub prune_args : Text
  pub check_enabled : Bool
  pub check_cron_expr : Text
  pub check_args : Text

pub record CreateRepoRequest : Type 0 where
  pub name : Text
  pub type : Text
  pub endpoint : Text
  pub password : Text
  pub rclone_config : Text
  pub webdav_url : Text
  pub webdav_user : Text
  pub webdav_password : Text
  pub options : Text
  pub init_on_create : Bool
  pub auto_unlock : Bool
  pub prune_enabled : Option Bool
  pub prune_cron_expr : Text
  pub prune_args : Text
  pub check_enabled : Option Bool
  pub check_cron_expr : Text
  pub check_args : Text

pub record UpdateRepoRequest : Type 0 where
  pub name : Option Text
  pub endpoint : Option Text
  pub password : Option Text
  pub rclone_config : Option Text
  pub webdav_url : Option Text
  pub webdav_user : Option Text
  pub webdav_password : Option Text
  pub options : Option Text
  pub prune_enabled : Option Bool
  pub prune_cron_expr : Option Text
  pub prune_args : Option Text
  pub check_enabled : Option Bool
  pub check_cron_expr : Option Text
  pub check_args : Option Text

pub record RepositoryAccessRequest : Type 0 where
  pub type : Text
  pub endpoint : Text
  pub password : Text
  pub rclone_config : Text
  pub webdav_url : Text
  pub webdav_user : Text
  pub webdav_password : Text

abbrev pub is_local : Text → Bool
is_local type = type == codes "local"

abbrev pub is_rclone : Text → Bool
is_rclone type = type == codes "rclone"

abbrev pub is_webdav : Text → Bool
is_webdav type = type == codes "webdav"

-- the endpoint of a repository of this type, as a request for it and one for a probe have it
unfoldable pub normalize_endpoint : (type endpoint webdav_url : Text) → Result Text
normalize_endpoint type endpoint webdav_url =
    if is_local type || is_rclone type
    then (if is_empty (trim_space endpoint)
        then err (endpoint_required type)
        else ok (trim_space endpoint))
    else if is_webdav type
    then (if is_empty (trim_space webdav_url)
        then err webdav_url_required
        else if is_empty (trim_space endpoint)
        then ok (trim_space webdav_url)
        else ok (trim_space endpoint))
    else err (unsupported_repository_type type)

unfoldable pub normalize_repo_endpoint : CreateRepoRequest → Result Text
unfolding normalize_endpoint
normalize_repo_endpoint r = normalize_endpoint r.type r.endpoint r.webdav_url

unfoldable pub normalize_probe_endpoint : RepositoryAccessRequest → Result Text
unfolding normalize_endpoint
normalize_probe_endpoint r = normalize_endpoint r.type r.endpoint r.webdav_url

abbrev pub bool_value : Option Bool → Bool → Bool
bool_value none fallback = fallback
bool_value (some value) fallback = value

unfoldable pub string_value : Text → Text → Text
string_value value fallback = if is_empty (trim_space value) then fallback else value
