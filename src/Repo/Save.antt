-- ===== src/Repo/Save.antt =====
-- Creating, changing and deleting repositories: Create, Update, Delete and ensureRepoUnique of
-- backend/internal/service/repo_service.go, and Create, Update, GetByID and Delete of
-- backend/internal/repository/repo_store.go.
use auto_restic.Shared.{
  ◌==◌, ◌&&◌, ◌||◌, not, ℕ, suc, nat_eq, Bool, true, false, List, [], ◌∷◌, Option, none, some, Text,
  Eq-Text, Eq-ℕ, codes, trim_space, to_lower, contains_text, if◌then◌else◌,
}
use auto_restic.Exec.{
  Error, external, repository_already_exists, repository_locked, no_rows, Result, ok, err,
}
use auto_restic.Fallible
unfoldable pub use auto_restic.Fallible.{continue_with, ◌>>=◌, return, lift}
use auto_restic.Repo.Secrets.{Nonces}
use auto_restic.Repo.{Repository, RepositoryAccessRequest}
use auto_restic.Repo.Access.{
  Command, Outside, RepositoryProbe, probe_repository_access, unlock_repository_access,
}

-- what is asked of the cache, and InitRepoAsync
pub data FollowUp : Type 0 where
  queued_initial_import reset_repository started_init : (repo_id : ℕ) → FollowUp

pub record RepoService : Type 0 where
  -- in the order of List, the newest first
  pub rows : List Repository
  -- what AUTOINCREMENT gives next
  pub next_id : ℕ
  pub trace : List Command
  pub follow_ups : List FollowUp

abbrev pub new_repo_service : RepoService
new_repo_service = record { rows = []; next_id = 1; trace = []; follow_ups = [] }

-- What comes from outside in one operation: commands and files; what rand.Reader gives for each
-- secret; the errors of statements; and what the cache and InitRepoAsync return.
pub record SaveEnv : Type 0 where
  pub outside : Outside
  pub nonces : Nonces
  pub list_error : Option Error
  pub get_error : Option Error
  pub write_error : Option Error
  pub initial_import : Result ℕ
  pub init : Result ℕ
  pub reset_error : Option Error

pub data InitStatus : Type 0 where
  not_asked running failed_to_start : InitStatus

pub record CreateRepoResult : Type 0 where
  pub id : ℕ
  pub import_log_id : Option ℕ
  pub init_status : InitStatus
  pub init_log_id : ℕ
  pub unlock_log_id : ℕ

-- A computation on the service.
abbrev pub M : Type 0 → Type 0
M A = Fallible.M RepoService A

abbrev pub raise_if : Option Error → M Bool
raise_if none = return true
raise_if (some e) = lift (err e)

abbrev pub is_current : ℕ → Repository → Bool
is_current current_id r = not (nat_eq current_id 0) && nat_eq r.id current_id

-- `strings.EqualFold` is an argument: it goes by the tables of Unicode.
module _ (equal_fold : Text → Text → Bool) where
  -- a row in the way of a repository with this name, type and endpoint, both trimmed
  abbrev pub clashes : (name type endpoint : Text) → Repository → Bool
  clashes name type endpoint r =
      equal_fold (trim_space r.name) name || (r.type == type && trim_space r.endpoint == endpoint)

  unfoldable pub any_clash : (name type endpoint : Text) → ℕ → List Repository → Bool
  any_clash name type endpoint current_id [] = false
  any_clash name type endpoint current_id (r ∷ rs) =
      (not (is_current current_id r) && clashes name type endpoint r)
      || any_clash name type endpoint current_id rs

  unfoldable pub ensure_repo_unique : SaveEnv → (name type endpoint : Text) → ℕ → M Bool
  unfolding any_clash
  ensure_repo_unique env name type endpoint current_id s =
      continue_with
        (λ listed s. (
          s,
          (if any_clash (trim_space name) type (trim_space endpoint) current_id s.rows
              then err repository_already_exists
              else ok true),
        ))
        (raise_if env.list_error s)

-- the unique indexes of the table, which compare as they are written
unfoldable pub violates_index : Repository → List Repository → Bool
violates_index new [] = false
violates_index new (r ∷ rs) =
    (not (nat_eq r.id new.id)
      && (r.name == new.name || (r.type == new.type && r.endpoint == new.endpoint)))
    || violates_index new rs

unfoldable pub is_unique_constraint_error : Error → Bool
unfolding to_lower contains_text
is_unique_constraint_error (external message) =
    contains_text (to_lower message) (codes "unique")
    || contains_text (to_lower message) (codes "constraint")
is_unique_constraint_error _ = false

-- an error of a write, as the service passes it on
abbrev pub write_error_of : Error → Error
write_error_of e = if is_unique_constraint_error e then repository_already_exists else e

-- what the driver says of a unique index
abbrev pub index_violated : Error
index_violated = external (codes "UNIQUE constraint failed")

abbrev pub written : Option Error → Result Bool
written none = ok true
written (some e) = err (write_error_of e)

unfoldable pub insert_row : SaveEnv → (ℕ → Repository) → M ℕ
unfolding violates_index
insert_row env new s =
    continue_with
      (λ done s.
        if violates_index (new s.next_id) s.rows
        then (s, err (write_error_of index_violated))
        else (record s { rows = new s.next_id ∷ s.rows; next_id = suc s.next_id }, ok s.next_id))
      (lift (written env.write_error) s)

unfoldable pub find_row : ℕ → List Repository → Option Repository
find_row id [] = none
find_row id (r ∷ rs) = let rest = find_row id rs in if nat_eq r.id id then some r else rest

-- The type is not among the columns that are written.
abbrev pub written_over : Repository → Repository → Repository
written_over new r = if nat_eq r.id new.id then (record new { type = r.type }) else r

abbrev pub write_over : Repository → List Repository → List Repository
write_over new [] = []
write_over new (r ∷ rs) = written_over new r ∷ write_over new rs

unfoldable pub update_row : SaveEnv → Repository → M Bool
unfolding violates_index
update_row env new s =
    continue_with
      (λ done s.
        if violates_index new s.rows
        then (s, err (write_error_of index_violated))
        else (record s { rows = write_over new s.rows }, ok true))
      (lift (written env.write_error) s)

abbrev pub found_row : Option Repository → Result Repository
found_row none = err no_rows
found_row (some r) = ok r

unfoldable pub get_row : SaveEnv → ℕ → M Repository
unfolding find_row
get_row env id s =
    continue_with (λ read s. (s, found_row (find_row id s.rows))) (raise_if env.get_error s)

abbrev pub follow : FollowUp → M Bool
follow f s = (record s { follow_ups = f ∷ s.follow_ups }, ok true)

abbrev pub probe_outcome :
    RepoService
    → List Command × (RepositoryProbe × Option Error)
    → RepoService × Result RepositoryProbe
probe_outcome s (trace, (probe, some e)) = (record s { trace = trace }, err e)
probe_outcome s (trace, (probe, none)) = (record s { trace = trace }, ok probe)

abbrev pub probing : SaveEnv → RepositoryAccessRequest → M RepositoryProbe
probing env access s = probe_outcome s (probe_repository_access env.outside access s.trace)

abbrev pub unlock_result : RepoService → List Command × (ℕ × Option Error) → RepoService × Result ℕ
unlock_result s (trace, (log_id, some e)) = (record s { trace = trace }, err e)
unlock_result s (trace, (log_id, none)) = (record s { trace = trace }, ok log_id)

abbrev pub unlocking : SaveEnv → RepositoryAccessRequest → M ℕ
unlocking env access s = unlock_result s (unlock_repository_access env.outside access s.trace)

-- The lock of a repository is removed where this is asked for. The result is the log and the probe
-- that counts from here on.
unfoldable pub unlock_if_asked :
    SaveEnv → RepositoryAccessRequest → Bool → RepositoryProbe → M (ℕ × RepositoryProbe)
unlock_if_asked env access auto_unlock probe =
    if probe.exists && probe.accessible && probe.locked && auto_unlock
    then (unlocking env access >>= λ log_id. probing env access >>= λ again.
        if again.locked then lift (err repository_locked) else return (log_id, again))
    else return (0, probe)
