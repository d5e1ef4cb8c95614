-- ===== src/Repo/Secrets.antt =====
-- The secrets of a new repository, as Create of backend/internal/service/repo_service.go encrypts
-- them.
use auto_restic.Shared.{Text, [], codes, is_empty, if◌then◌else◌}
use auto_restic.Exec.{encrypt_failed, Result, ok, err, ◌>>=◌}
use auto_restic.Repo.Cipher.{Gcm, encrypt}
use auto_restic.Repo.{CreateRepoRequest}

-- what rand.Reader gives for each secret
pub record Nonces : Type 0 where
  pub password : Result Text
  pub webdav : Result Text
  pub rclone : Result Text

-- the columns that are encrypted
pub record Secrets : Type 0 where
  pub password : Text
  pub webdav_password : Text
  pub rclone_config : Text

abbrev pub while_encrypting : Text → Result Text → Result Text
while_encrypting what (err e) = err (encrypt_failed what e)
while_encrypting what (ok stored) = ok stored

-- a secret that may be empty, and is then stored as it is
abbrev pub unless_empty : Text → Result Text → Result Text
unless_empty secret encrypted = if is_empty secret then ok [] else encrypted

module _ (gcm : Gcm) (key : Text) where
  unfoldable pub encrypt_secrets : Nonces → CreateRepoRequest → Result Secrets
  unfolding encrypt
  encrypt_secrets nonces r = do
    password ← while_encrypting (codes "password") (encrypt gcm key nonces.password r.password)
    webdav ← unless_empty r.webdav_password (encrypt gcm key nonces.webdav r.webdav_password)
    config ←
        unless_empty r.rclone_config
          (while_encrypting (codes "rclone config") (encrypt gcm key nonces.rclone r.rclone_config))
    ok (record { password = password; webdav_password = webdav; rclone_config = config })
