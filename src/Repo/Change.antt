-- ===== src/Repo/Change.antt =====
-- What Update of backend/internal/service/repo_service.go makes of a row.
use auto_restic.Shared.{
  sym, ap, ◌≡◌, ◌&&◌, Bool, [], Option, none, some, Text, codes, is_empty, trim_space, is_some,
  ◌||◌, if◌then◌else◌,
}
use auto_restic.Exec.{ok_inj, Result, ok, err, ◌>>=◌}
use auto_restic.Repo.Cipher.{Gcm, encrypt}
use auto_restic.Repo.{Repository, UpdateRepoRequest, string_value, is_webdav}
use auto_restic.Repo.Secrets.{Nonces, while_encrypting}
use auto_restic.Repo.Create.{default_prune_args, default_check_args}

abbrev pub or_else {ℓ} : {A : Type ℓ} → Option A → A → A
or_else none old = old
or_else (some new) old = new

abbrev pub trimmed_or : Option Text → Text → Text
trimmed_or none old = old
trimmed_or (some new) old = trim_space new

abbrev pub args_or : Option Text → Text → Text → Text
args_or none old fallback = old
args_or (some new) old fallback = string_value new fallback

-- A password that is empty in a request stays what it was.
abbrev pub new_password : Option Text → Text → (Text → Result Text) → Result Text
new_password none old encrypted = ok old
new_password (some password) old encrypted =
    if is_empty password then ok old else encrypted password

-- An rclone config that is empty in a request is removed.
abbrev pub new_rclone_config : Option Text → Text → (Text → Result Text) → Result Text
new_rclone_config none old encrypted = ok old
new_rclone_config (some config) old encrypted = if is_empty config then ok [] else encrypted config

-- the endpoint, which for WebDAV follows the URL
abbrev pub new_endpoint : UpdateRepoRequest → Repository → Text
new_endpoint r repo =
    if is_webdav repo.type && is_some r.webdav_url
    then trimmed_or r.webdav_url repo.webdav_url
    else trimmed_or r.endpoint repo.endpoint

unfoldable pub needs_resync : UpdateRepoRequest → Bool
needs_resync r =
    is_some r.endpoint
    || is_some r.password
    || is_some r.rclone_config
    || is_some r.webdav_url
    || is_some r.webdav_user
    || is_some r.webdav_password

abbrev pub changed_row :
    UpdateRepoRequest → Repository → (password config webdav : Text) → Repository
changed_row r repo password config webdav = record {
  id = repo.id;
  name = or_else r.name repo.name;
  type = repo.type;
  endpoint = new_endpoint r repo;
  password_encrypted = password;
  rclone_config_encrypted = config;
  webdav_url = trimmed_or r.webdav_url repo.webdav_url;
  webdav_user = or_else r.webdav_user repo.webdav_user;
  webdav_password_encrypted = webdav;
  options = or_else r.options repo.options;
  prune_enabled = or_else r.prune_enabled repo.prune_enabled;
  prune_cron_expr = or_else r.prune_cron_expr repo.prune_cron_expr;
  prune_args = args_or r.prune_args repo.prune_args default_prune_args;
  check_enabled = or_else r.check_enabled repo.check_enabled;
  check_cron_expr = or_else r.check_cron_expr repo.check_cron_expr;
  check_args = args_or r.check_args repo.check_args default_check_args;
}

module _ (gcm : Gcm) (key : Text) where
  changed_password : Nonces → UpdateRepoRequest → Repository → Result Text
  unfolding encrypt
  changed_password nonces r repo =
      new_password r.password repo.password_encrypted
        (λ p. while_encrypting (codes "password") (encrypt gcm key nonces.password p))

  changed_config : Nonces → UpdateRepoRequest → Repository → Result Text
  unfolding encrypt
  changed_config nonces r repo =
      new_rclone_config r.rclone_config repo.rclone_config_encrypted
        (λ c. while_encrypting (codes "rclone config") (encrypt gcm key nonces.rclone c))

  changed_webdav_password : Nonces → UpdateRepoRequest → Repository → Result Text
  unfolding encrypt
  changed_webdav_password nonces r repo =
      new_password r.webdav_password repo.webdav_password_encrypted
        (λ p. while_encrypting (codes "webdav password") (encrypt gcm key nonces.webdav p))

  unfoldable pub change : Nonces → UpdateRepoRequest → Repository → Result Repository
  unfolding changed_password changed_config changed_webdav_password
  change nonces r repo = do
    password ← changed_password nonces r repo
    config ← changed_config nonces r repo
    webdav ← changed_webdav_password nonces r repo
    ok (changed_row r repo password config webdav)

  -- An update keeps the identifier and the type.
  pub change_keeps :
      (nonces : Nonces) (r : UpdateRepoRequest) (repo new : Repository)
      → change nonces r repo ≡ ok new
      → (new.id ≡ repo.id) × (new.type ≡ repo.type)
  unfolding change
  change_keeps nonces r repo new h =
      go (changed_password nonces r repo) (changed_config nonces r repo)
        (changed_webdav_password nonces r repo) h
    where
      go :
          (password config webdav : Result Text)
          → (password >>= λ p. config >>= λ c. webdav >>= λ w. ok (changed_row r repo p c w))
            ≡ ok new
          → (new.id ≡ repo.id) × (new.type ≡ repo.type)
      go (ok p) (ok c) (ok w) h =
          (ap (λ x. x.id) (sym (ok_inj h)), ap (λ x. x.type) (sym (ok_inj h)))
      go (ok p) (ok c) (err e) h = cc
      go (ok p) (err e) webdav h = cc
      go (err e) config webdav h = cc
