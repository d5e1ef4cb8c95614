-- ===== src/Repo/Runtime/Created.antt =====
-- What Create of backend/internal/service/repo_service.go adds to the rows.
use auto_restic.Shared.{◌≡◌, refl, Bool, ◌∷◌, Option, Text, is_empty, trim_space}
use auto_restic.Exec.{Error, ok}
use auto_restic.Fallible.Triples.{Triple-post, Ends}
use auto_restic.Repo.Cipher.{Gcm, IsGcm}
use auto_restic.Repo.{CreateRepoRequest, Repository, normalize_repo_endpoint}
use auto_restic.Repo.Access.{Outside, build_access_probe_env}
use auto_restic.Repo.Save.{RepoService, SaveEnv, CreateRepoResult}
use auto_restic.Repo.Create.{access_request, new_repository, create}
use auto_restic.Repo.Runtime.{build_restic_runtime}
use auto_restic.Repo.Runtime.Probed.{IsNonce, create_runtime}
use auto_restic.Repo.Runtime.Added.{Before, IsAdded, create-IsAdded}

-- A request to create a repository that has a result adds one row, under the identifier of the
-- result, and every command of that repository runs in the environment in which the repository was
-- probed: as long as random bytes are what they should be, and the rclone config does not consist
-- of white space alone. A request that fails before adds no row.
pub create_adds_probed :
    (equal_fold : Text → Text → Bool) (gcm : Gcm) (key : Text) (env : SaveEnv)
    (r : CreateRepoRequest) (s : RepoService)
    → IsGcm gcm
    → IsNonce env.nonces.password
    → IsNonce env.nonces.webdav
    → IsNonce env.nonces.rclone
    → is_empty (trim_space r.rclone_config) ≡ is_empty r.rclone_config
    → Ends
        (λ result s'.
          (row : Repository) × (endpoint : Text) × (s'.rows ≡ row ∷ s.rows)
          × (row.id ≡ result.0.id)
          × (normalize_repo_endpoint r ≡ ok endpoint)
          × ((outside : Outside)
              → build_restic_runtime outside gcm key row
                ≡ build_access_probe_env outside (access_request r endpoint) endpoint))
        (λ s'. s'.rows ≡ s.rows)
        (create equal_fold gcm key env r s)
unfolding Before
create_adds_probed equal_fold gcm key env r s is_gcm n1 n2 n3 solid =
    (Triple-post runs (create-IsAdded equal_fold gcm key env r s.rows)).ends s refl
  where
    runs :
        (result : CreateRepoResult × Option Error) (s' : RepoService)
        → IsAdded equal_fold gcm key env r s.rows result.0.id s'
        → (row : Repository) × (endpoint : Text) × (s'.rows ≡ row ∷ s.rows)
          × (row.id ≡ result.0.id)
          × (normalize_repo_endpoint r ≡ ok endpoint)
          × ((outside : Outside)
              → build_restic_runtime outside gcm key row
                ≡ build_access_probe_env outside (access_request r endpoint) endpoint)
    runs result s' h = (
      new_repository r h.endpoint h.secrets result.0.id,
      h.endpoint,
      h.rows_eq,
      refl,
      h.endpoint_eq,
      λ outside.
          create_runtime gcm is_gcm key outside env.nonces r h.endpoint h.secrets result.0.id n1 n2
            n3 solid h.endpoint_eq h.secrets_eq,
    )
