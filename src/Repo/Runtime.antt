-- ===== src/Repo/Runtime.antt =====
-- The environment of a repository's commands: buildResticRuntime of
-- backend/internal/service/repo_service.go.
pub mod Probed
pub mod Added
pub mod Created
use auto_restic.Shared.{List, [], ◌∷◌, ◌++◌, Text, codes, is_empty, trim_space, if◌then◌else◌}
use auto_restic.Exec.{decrypt_failed, Result, ok, err, ◌>>=◌}
use auto_restic.Repo.Cipher.{Gcm, decrypt}
use auto_restic.Repo.{Repository, is_local, is_rclone, is_webdav}
use auto_restic.Repo.Access.{Outside, with_rclone_config}

-- an error with what was being decrypted
abbrev pub while_decrypting : Text → Result Text → Result Text
while_decrypting what (err e) = err (decrypt_failed what e)
while_decrypting what (ok plaintext) = ok plaintext

module _ (outside : Outside) (gcm : Gcm) (key : Text) where
  rclone_runtime : List Text → Text → Result (List Text)
  unfolding decrypt with_rclone_config
  rclone_runtime env encrypted = do
    config ← while_decrypting (codes "rclone config") (decrypt gcm key encrypted)
    with_rclone_config outside env (outside.temp_config config)

  webdav_password : Text → Result (List Text)
  unfolding decrypt
  webdav_password encrypted =
      if is_empty encrypted
      then ok []
      else (decrypt gcm key encrypted >>= λ password.
          ok ((codes "WEBDAV_PASSWORD=" ++ password) ∷ []))

  webdav_runtime : List Text → Repository → Result (List Text)
  unfolding webdav_password
  webdav_runtime env r = do
    password ← webdav_password r.webdav_password_encrypted
    ok (
        env
        ++ ((if is_empty r.webdav_user then [] else (codes "WEBDAV_USER=" ++ r.webdav_user) ∷ [])
            ++ password))

  typed_runtime : Repository → Text → Result (List Text)
  unfolding rclone_runtime webdav_runtime
  typed_runtime r password =
      if is_local r.type
      then ok (password ∷ (codes "RESTIC_REPOSITORY=" ++ r.endpoint) ∷ [])
      else if is_rclone r.type
      then (let env = password ∷ (codes "RESTIC_REPOSITORY=rclone:" ++ r.endpoint) ∷ [] in
          if is_empty (trim_space r.rclone_config_encrypted)
          then ok env
          else rclone_runtime env r.rclone_config_encrypted)
      else if is_webdav r.type
      then webdav_runtime (password ∷ (codes "RESTIC_REPOSITORY=webdav:" ++ r.webdav_url) ∷ []) r
      else ok (password ∷ [])

  unfoldable pub build_restic_runtime : Repository → Result (List Text)
  unfolding decrypt typed_runtime
  build_restic_runtime r = do
    password ← while_decrypting (codes "password") (decrypt gcm key r.password_encrypted)
    typed_runtime r (codes "RESTIC_PASSWORD=" ++ password)
