-- ===== src/Repo/Runtime/Added.antt =====
-- How Create of backend/internal/service/repo_service.go adds a row: step by step.
use auto_restic.Shared.{
  ◌&&◌, ◌≡◌, refl, sym, ap, ◌∙◌, ℕ, Bool, true, false, ◌∷◌, List, Option, none, some, Text,
  trim_space, if◌then◌else◌, suc,
}
use auto_restic.Exec.{Error, Result, ok, err, repository_already_exists}
use auto_restic.Fallible.{return, ◌>>=◌, continue_with, lift}
use auto_restic.Fallible.Triples.{
  Triple-post, Triple-given, Ends, Triple, Triple-bind, Keeps, Triple-keep,
}
use auto_restic.Repo.Cipher.{Gcm}
use auto_restic.Repo.{CreateRepoRequest, Repository, normalize_repo_endpoint}
use auto_restic.Repo.Access.{RepositoryProbe}
use auto_restic.Repo.Secrets.{Secrets, encrypt_secrets}
use auto_restic.Repo.Save.{
  follow, RepoService, SaveEnv, CreateRepoResult, queued_initial_import, started_init,
  ensure_repo_unique, any_clash, raise_if, insert_row, violates_index, written, write_error_of,
  index_violated,
}
use auto_restic.Repo.Create.{
  access_request, new_repository, create, follow_up, created, imported, initialised,
}
use auto_restic.Repo.Untouched.{OfRows, Keeps-probing, Keeps-unlock_if_asked}

module _ (equal_fold : Text → Text → Bool) (gcm : Gcm) (key : Text) (env : SaveEnv)
    (r : CreateRepoRequest) (old : List Repository) where
  -- the rows are those from before
  unfoldable pub Before : RepoService → Type 0
  Before s = s.rows ≡ old

  Before-of_rows : OfRows Before
  unfolding Before
  Before-of_rows s trace follow_ups h = h

  -- a row is added with what was made of the request
  pub record IsAdded (id : ℕ) (s : RepoService) : Type 0 where
    pub endpoint : Text
    pub secrets : Secrets
    pub endpoint_eq : normalize_repo_endpoint r ≡ ok endpoint
    pub secrets_eq : encrypt_secrets gcm key env.nonces r ≡ ok secrets
    pub rows_eq : s.rows ≡ new_repository r endpoint secrets id ∷ old

  taken_over :
      {A : Type 0} (v : Result A) → Triple Before (lift v) (λ a s. (v ≡ ok a) × Before s) Before
  taken_over (ok a) = record { ends = λ s h. (refl, h) }
  taken_over (err e) = record { ends = λ s h. h }

  Keeps-ensure :
      (name type endpoint : Text) (current_id : ℕ)
      → Keeps Before (ensure_repo_unique equal_fold env name type endpoint current_id)
  unfolding ensure_repo_unique Before
  Keeps-ensure name type endpoint current_id = record { ends = λ s h. go s h env.list_error }
    where
      taken : RepoService → Bool
      taken s = any_clash equal_fold (trim_space name) type (trim_space endpoint) current_id s.rows

      test :
          (s : RepoService)
          → Before s
          → (b : Bool)
          → Ends {A = Bool}
              (λ a s. Before s)
              Before
              (s, (if b then err repository_already_exists else ok true))
      test s h true = h
      test s h false = h

      go :
          (s : RepoService)
          → Before s
          → (e : Option Error)
          → Ends {A = Bool}
              (λ a s. Before s)
              Before
              (continue_with
                (λ listed s. (s, (if taken s then err repository_already_exists else ok true)))
                (raise_if e s))
      go s h (some e) = h
      go s h none = test s h (taken s)

  insert_lem :
      (new : ℕ → Repository)
      → Triple Before (insert_row env new) (λ id s. s.rows ≡ new id ∷ old) Before
  unfolding insert_row Before
  insert_lem new = record { ends = λ s h. go s h env.write_error }
    where
      inserted :
          (s : RepoService)
          → Before s
          → (b : Bool)
          → Ends {A = ℕ}
              (λ id s. s.rows ≡ new id ∷ old)
              Before
              (if b then (s, err (write_error_of index_violated)) else (
                record s { rows = new s.next_id ∷ s.rows; next_id = suc s.next_id },
                ok s.next_id,
              ))
      inserted s h true = h
      inserted s h false = ap (λ rs. new s.next_id ∷ rs) h

      go :
          (s : RepoService)
          → Before s
          → (e : Option Error)
          → Ends {A = ℕ}
              (λ id s. s.rows ≡ new id ∷ old)
              Before
              (continue_with
                (λ done s.
                  if violates_index (new s.next_id) s.rows
                  then (s, err (write_error_of index_violated))
                  else (
                    record s { rows = new s.next_id ∷ s.rows; next_id = suc s.next_id },
                    ok s.next_id,
                  ))
                (lift (written e) s))
      go s h (some e) = h
      go s h none = inserted s h (violates_index (new s.next_id) s.rows)

  follow_up_lem :
      (P : RepoService → Type 0) (of_rows : OfRows P) (init_on_create : Bool)
      (probe : RepositoryProbe) (id unlock_log_id : ℕ)
      → Triple P
          (follow_up env init_on_create probe (created id unlock_log_id))
          (λ result s. (result.0.id ≡ id) × P s)
          Before
  unfolding follow_up
  follow_up_lem P of_rows init_on_create probe id unlock_log_id = record {
    ends = λ s p. go (probe.exists && probe.accessible) init_on_create s p;
  }
    where
      Q : CreateRepoResult × Option Error → RepoService → Type 0
      Q result s = (result.0.id ≡ id) × P s

      import_id : (v : Result ℕ) → (imported (created id unlock_log_id) v).0.id ≡ id
      import_id (ok log_id) = refl
      import_id (err e) = refl

      init_id : (v : Result ℕ) → (initialised (created id unlock_log_id) v).id ≡ id
      init_id (ok log_id) = refl
      init_id (err e) = refl

      go :
          (b c : Bool) (s : RepoService)
          → P s
          → Ends Q Before (
              (if b
                  then (follow (queued_initial_import id) >>= λ done.
                      return (imported (created id unlock_log_id) env.initial_import))
                  else if c
                  then (follow (started_init id) >>= λ done.
                      return (initialised (created id unlock_log_id) env.init, none))
                  else return (created id unlock_log_id, none))
                s)
      go true c s p = (
        import_id env.initial_import,
        of_rows s s.trace (queued_initial_import id ∷ s.follow_ups) p,
      )
      go false true s p = (init_id env.init, of_rows s s.trace (started_init id ∷ s.follow_ups) p)
      go false false s p = (refl, p)

  pub create-IsAdded :
      Triple Before (create equal_fold gcm key env r) (λ result s. IsAdded result.0.id s) Before
  unfolding create Before
  create-IsAdded =
      let access = access_request r in
      Triple-bind (taken_over (normalize_repo_endpoint r)) (λ endpoint. Triple-given (λ endpoint_eq.
        Triple-keep (Keeps-ensure r.name r.type endpoint 0) (λ s h. h)
          (λ unique.
            Triple-keep (Keeps-probing Before Before-of_rows env (access endpoint)) (λ s h. h)
              (λ probe.
                Triple-keep
                  (Keeps-unlock_if_asked Before Before-of_rows env (access endpoint) r.auto_unlock
                    probe)
                  (λ s h. h)
                  (λ unlocked.
                    Triple-bind (taken_over (encrypt_secrets gcm key env.nonces r)) (λ secrets.
                      Triple-given (λ secrets_eq.
                        Triple-bind (insert_lem (new_repository r endpoint secrets)) (λ id.
                          Triple-post (added endpoint secrets endpoint_eq secrets_eq id) (
                            follow_up_lem (λ s. s.rows ≡ new_repository r endpoint secrets id ∷ old)
                              (λ s trace follow_ups h. h) r.init_on_create unlocked.1 id
                              unlocked.0)))))))))
    where
      added :
          (endpoint : Text) (secrets : Secrets)
          → normalize_repo_endpoint r ≡ ok endpoint
          → encrypt_secrets gcm key env.nonces r ≡ ok secrets
          → (id : ℕ) (result : CreateRepoResult × Option Error) (s : RepoService)
          → (result.0.id ≡ id) × (s.rows ≡ new_repository r endpoint secrets id ∷ old)
          → IsAdded result.0.id s
      added endpoint secrets endpoint_eq secrets_eq id result s h = record {
        endpoint = endpoint;
        secrets = secrets;
        endpoint_eq = endpoint_eq;
        secrets_eq = secrets_eq;
        rows_eq = h.1 ∙ ap (λ n. new_repository r endpoint secrets n ∷ old) (sym h.0);
      }
