-- ===== src/Repo/Registry/Served.antt =====
-- The repositories after any requests: Create, Update and Delete of
-- backend/internal/service/repo_service.go.
use auto_restic.Shared.{◌≡◌, Bool, List, [], ◌∷◌, Text, Eq-Text, arith}
use auto_restic.Repo.Cipher.{Gcm}
use auto_restic.Repo.Save.{RepoService, new_repo_service}
use auto_restic.Repo.Update.{
  Request, create_request, update_request, delete_request, serve, serve_all,
}
use auto_restic.Repo.Registry.{IsRegistry}
use auto_restic.Repo.Registry.Created.{create-IsRegistry}
use auto_restic.Repo.Registry.Updated.{update-IsRegistry, delete-IsRegistry, kept}

module _ (equal_fold : Text → Text → Bool)
    (symmetric : (s t : Text) → equal_fold s t ≡ equal_fold t s) (gcm : Gcm) (key : Text) where
  serve-IsRegistry :
      (r : Request) (s : RepoService)
      → IsRegistry equal_fold s
      → (IsRegistry equal_fold) (serve equal_fold gcm key r s)
  unfolding serve
  serve-IsRegistry (create_request env r) s h =
      kept equal_fold symmetric gcm key _ ((create-IsRegistry equal_fold gcm key env r).ends s h)
  serve-IsRegistry (update_request env id r) s h =
      kept equal_fold symmetric gcm key _
        ((update-IsRegistry equal_fold symmetric gcm key env id r).ends s h)
  serve-IsRegistry (delete_request env id) s h =
      kept equal_fold symmetric gcm key _
        ((delete-IsRegistry equal_fold symmetric gcm key env id).ends s h)

  -- After any requests that are served one after another, each with any outcome of commands and
  -- statements, no two repositories have an identifier in common, a name up to case and white
  -- space, or a type and an endpoint.
  pub serve_all-IsRegistry :
      (requests : List Request)
      → IsRegistry equal_fold (serve_all equal_fold gcm key requests new_repo_service)
  unfolding serve_all
  serve_all-IsRegistry requests =
      go requests new_repo_service (record { apart = tt; known = tt; positive = omega arith })
    where
      go :
          (requests : List Request) (s : RepoService)
          → IsRegistry equal_fold s
          → IsRegistry equal_fold (serve_all equal_fold gcm key requests s)
      go [] s h = h
      go (r ∷ requests) s h = go requests (serve equal_fold gcm key r s) (serve-IsRegistry r s h)
