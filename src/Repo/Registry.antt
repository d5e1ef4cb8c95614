-- ===== src/Repo/Registry.antt =====
-- The invariant of the repositories, and ensureRepoUnique of
-- backend/internal/service/repo_service.go.
pub mod Created
pub mod Updated
pub mod Served
use auto_restic.Shared.{
  nat_eq_iff, ◌≡◌, ◌⊎◌, ◌<◌, ◌==◌, ◌||◌, inl, inr, refl, sym, ap, ◌∙◌, subst, ℕ, nat_eq, Bool, true,
  false, List, [], ◌∷◌, Option, none, some, Text, Eq-Text, trim_space, All, All-map, Bool-cases,
  if◌then◌else◌, arith, suc,
}
use auto_restic.Exec.{
  repository_already_exists, repository_locked, Error, Result, ok, err, bind_ok, ok_inj,
}
use auto_restic.Fallible.{◌>>=◌}
use auto_restic.Fallible.Triples.{
  Ends, Triple, Triple-bind, Keeps, Triple-on_error, Triple-return, Triple-keep, Triple-pre,
}
use auto_restic.Repo.Cipher.{Gcm}
use auto_restic.Repo.{
  Repository, CreateRepoRequest, UpdateRepoRequest, RepositoryAccessRequest,
  normalize_repo_endpoint,
}
use auto_restic.Repo.Access.{
  Command, RepositoryProbe, probe_repository_access, unlock_repository_access,
}
use auto_restic.Repo.Secrets.{encrypt_secrets, Secrets}
use auto_restic.Repo.Save.{
  index_violated, write_error_of, queued_initial_import, CreateRepoResult, FollowUp, RepoService,
  SaveEnv, M, lift, return, continue_with, raise_if, any_clash, ensure_repo_unique, violates_index,
  written, insert_row, find_row, write_over, update_row, get_row, follow, probe_outcome, probing,
  unlock_result, unlocking, unlock_if_asked, new_repo_service, found_row,
}
use auto_restic.Repo.Create.{create, new_repository, follow_up, access_request, created}
use auto_restic.Repo.Change.{change_keeps, change, needs_resync}
use auto_restic.Repo.Update.{
  resync, without, delete, Request, create_request, update_request, delete_request, update, serve,
  serve_all,
}
use auto_restic.Repo.Apart.{
  without-All, Apart, AllApart, OutOfTheWay, any_clash-false, Apart-sym, BesideUpdate, SameType,
  write_over-AllApart, find_row-SameType, BesideUpdate-of_free, without-AllApart,
}
use auto_restic.Repo.Untouched.{
  OfRows, Keeps-probing, Keeps-unlock_if_asked, Keeps-follow_up, Keeps-resync, Keeps-raise_if,
}

module _ (equal_fold : Text → Text → Bool) where
  -- Identifiers are given once, and no row is in the way of another.
  pub record IsRegistry (s : RepoService) : Type 0 where
    pub apart : AllApart equal_fold s.rows
    pub known : All (λ r. (0 < r.id) × (r.id < s.next_id)) s.rows
    pub positive : 0 < s.next_id

  pub IsRegistry-of_rows : OfRows IsRegistry
  IsRegistry-of_rows s trace follow_ups h = record {
    apart = h.apart;
    known = h.known;
    positive = h.positive;
  }

  -- Nothing is in the way of a repository.
  abbrev pub IsFree : (name type endpoint : Text) → ℕ → RepoService → Type 0
  IsFree name type endpoint current_id s =
      any_clash equal_fold (trim_space name) type (trim_space endpoint) current_id s.rows ≡ false

  pub ensure_lem :
      (P : RepoService → Type 0) (env : SaveEnv) (name type endpoint : Text) (current_id : ℕ)
      → Triple P
          (ensure_repo_unique equal_fold env name type endpoint current_id)
          (λ done s. P s × IsFree name type endpoint current_id s)
          P
  unfolding ensure_repo_unique
  ensure_lem P env name type endpoint current_id = record { ends = λ s h. go env.list_error s h }
    where
      Q : Bool → RepoService → Type 0
      Q done s = P s × IsFree name type endpoint current_id s

      taken : RepoService → Bool
      taken s = any_clash equal_fold (trim_space name) type (trim_space endpoint) current_id s.rows

      test :
          (s : RepoService) (b : Bool)
          → taken s ≡ b
          → P s
          → Ends Q P (s, (if b then err repository_already_exists else ok true))
      test s true e h = h
      test s false e h = (h, e)

      go :
          (e : Option Error) (s : RepoService)
          → P s
          → Ends Q P (
              continue_with
                (λ listed s. (s, (if taken s then err repository_already_exists else ok true)))
                (raise_if e s))
      go none s h = test s (taken s) refl h
      go (some e) s h = h
