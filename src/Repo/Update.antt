-- ===== src/Repo/Update.antt =====
-- Update and Delete of backend/internal/service/repo_service.go.
use auto_restic.Shared.{ℕ, nat_eq, Bool, true, false, List, [], ◌∷◌, Text, if◌then◌else◌}
use auto_restic.Exec.{ok}
use auto_restic.Repo.Cipher.{Gcm}
use auto_restic.Repo.{Repository, CreateRepoRequest, UpdateRepoRequest}
use auto_restic.Repo.Save.{
  queued_initial_import, reset_repository, RepoService, SaveEnv, M, ◌>>=◌, lift, return, raise_if,
  continue_with, ensure_repo_unique, get_row, update_row, follow,
}
use auto_restic.Repo.Change.{change, needs_resync}
use auto_restic.Repo.Create.{create}

-- behind the write
unfoldable pub resync : SaveEnv → ℕ → Bool → M Bool
resync env id false = return true
resync env id true = do
  asked ← follow (reset_repository id)
  reset ← raise_if env.reset_error
  follow (queued_initial_import id)

abbrev pub without : ℕ → List Repository → List Repository
without id [] = []
without id (r ∷ rs) = let rest = without id rs in if nat_eq r.id id then rest else r ∷ rest

unfoldable pub delete : SaveEnv → ℕ → M Bool
delete env id s =
    continue_with (λ done s. (record s { rows = without id s.rows }, ok true))
      (raise_if env.write_error s)

-- a request, and what comes from outside while it is served
pub data Request : Type 0 where
  create_request : SaveEnv → CreateRepoRequest → Request
  update_request : SaveEnv → ℕ → UpdateRepoRequest → Request
  delete_request : SaveEnv → ℕ → Request

module _ (equal_fold : Text → Text → Bool) (gcm : Gcm) (key : Text) where
  unfoldable pub update : SaveEnv → ℕ → UpdateRepoRequest → M Bool
  unfolding get_row change ensure_repo_unique update_row resync needs_resync
  update env id r = do
    repo ← get_row env id
    new ← lift (change gcm key env.nonces r repo)
    unique ← ensure_repo_unique equal_fold env new.name new.type new.endpoint new.id
    done ← update_row env new
    resync env id (needs_resync r)

  -- one request
  unfoldable pub serve : Request → RepoService → RepoService
  unfolding create update delete
  serve (create_request env r) s = (create equal_fold gcm key env r s).0
  serve (update_request env id r) s = (update env id r s).0
  serve (delete_request env id) s = (delete env id s).0

  unfoldable pub serve_all : List Request → RepoService → RepoService
  unfolding serve
  serve_all [] s = s
  serve_all (r ∷ rs) s = serve_all rs (serve r s)
