-- ===== src/Cache/Rows.antt =====
-- Statements on the rows of the synchronisation: getSyncState, setSyncState, currentGeneration,
-- nextGeneration, markSyncStateStale and markFilesDomainStale of
-- backend/internal/service/repo_cache_service.go.
use auto_restic.Shared.{
  to_lower, zero, ℕ, suc, ◌+◌, Bool, true, false, [], Option, none, some, Text, codes, Eq-ℕ, nat_eq,
  if◌then◌else◌, contains_text, map,
}
use auto_restic.Exec.{Error, external, Result, ok, err}
use auto_restic.Cache.State.{
  Domain, files, Status, running, stale, same_domain, SyncState, Db, FileIndex, M, ◌>>=◌, return,
  throw, attempt, Env,
}

unfoldable pub is_no_such_table : Text → Bool
unfolding contains_text to_lower
is_no_such_table message = contains_text (to_lower message) (codes "no such table")

unfoldable pub tolerated : Error → Bool
tolerated (external message) = is_no_such_table message
tolerated _ = false

abbrev pub counted : Db → Db
counted db = record db { executed = suc db.executed }

abbrev pub at_fault : {A : Type 0} → Option Text → Db → Db × Result A → Db × Result A
at_fault none db done = done
at_fault (some message) db done = (db, err (external message))

-- what ON CONFLICT(repo_id, domain) does: a generation of 0 and a missing time or log keep the old one
abbrev pub generation_or : ℕ → ℕ → ℕ
generation_or given kept = if nat_eq given 0 then kept else given

abbrev pub coalesce : {A : Type 0} → Option A → Option A → Option A
coalesce none kept = kept
coalesce (some a) kept = some a

unfoldable pub upsert_state : SyncState → Option SyncState → SyncState
upsert_state new none = new
upsert_state new (some old) = record new {
  generation = generation_or new.generation old.generation;
  last_success_at = coalesce new.last_success_at old.last_success_at;
  log_id = coalesce new.log_id old.log_id;
}

abbrev pub sanitize_log_id : Option ℕ → Option ℕ
sanitize_log_id none = none
sanitize_log_id (some zero) = none
sanitize_log_id (some (suc n)) = some (suc n)

unfoldable pub put_state : Domain → SyncState → Db → Db
unfolding upsert_state same_domain
put_state domain new db = record db {
  sync_states = λ d.
      if same_domain domain d then some (upsert_state new (db.sync_states d)) else db.sync_states d;
}

abbrev pub generation_of : Option SyncState → ℕ
generation_of none = 0
generation_of (some state) = state.generation

abbrev pub last_success_of : Option SyncState → Option ℕ
last_success_of none = none
last_success_of (some state) = state.last_success_at

abbrev pub log_id_of : Option SyncState → Option ℕ
log_id_of none = none
log_id_of (some state) = state.log_id

abbrev pub stale_status : Status → Status
stale_status running = running
stale_status _ = stale

-- an index whose work runs keeps its status
abbrev pub stale_index : FileIndex → FileIndex
stale_index index = record index { stale = true; status = stale_status index.status }

-- a query whose error is passed over where the table is missing, with a value in its place
abbrev pub or_missing : {A : Type 0} → A → Result A → M A
or_missing missing (ok a) = return a
or_missing missing (err e) = if tolerated e then return missing else throw e

module _ (env : Env) where
  -- a statement that changes the rows, unless it fails
  unfoldable pub exec : (Db → Db) → M Bool
  exec change db = at_fault (env.fault db.executed) (counted db) (change (counted db), ok true)

  unfoldable pub query : {A : Type 0} → (Db → A) → M A
  query read db = at_fault (env.fault db.executed) (counted db) (counted db, ok (read db))

  -- the upsert of setSyncState, at the time of the statement
  unfoldable pub set_sync_state :
      Domain
      → Status
      → (phase : Text) → (progress generation : ℕ) → (last_success_at : Option ℕ)
      → (last_error : Text) → (log_id : Option ℕ) → M Bool
  unfolding exec put_state
  set_sync_state domain status phase progress generation last_success_at last_error log_id db =
      exec
        (put_state domain (record {
          status = status;
          phase = phase;
          progress = progress;
          generation = generation;
          last_success_at = last_success_at;
          last_error = last_error;
          log_id = sanitize_log_id log_id;
          updated_at = env.clock db.executed;
        }))
        db

  unfoldable pub get_sync_state : Domain → M (Option SyncState)
  unfolding query
  get_sync_state domain = query (λ db. db.sync_states domain)

  unfoldable pub current_generation : Domain → M ℕ
  unfolding get_sync_state tolerated
  current_generation domain = do
    found ← attempt (get_sync_state domain)
    state ← or_missing none found
    return (generation_of state)

  unfoldable pub next_generation : Domain → M ℕ
  unfolding current_generation
  next_generation domain = do current ← current_generation domain; return (current + 1)

  unfoldable pub mark_sync_state_stale : Domain → Text → M Bool
  unfolding get_sync_state set_sync_state tolerated
  mark_sync_state_stale domain message = do
    found ← attempt (get_sync_state domain)
    state ← or_missing none found
    set_sync_state domain stale [] 0 (generation_of state) (last_success_of state) message
        (log_id_of state)

  unfoldable pub mark_files_domain_stale : Text → M Bool
  unfolding exec mark_sync_state_stale
  mark_files_domain_stale message = do
    marked ← exec (λ db. record db { file_indexes = map stale_index db.file_indexes })
    mark_sync_state_stale files message
