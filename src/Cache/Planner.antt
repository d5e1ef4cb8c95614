-- ===== src/Cache/Planner.antt =====
-- The planner of synchronisations: RefreshAll, planRefreshRound, nextRefreshCandidate,
-- refreshCandidateForDomain, shouldQueueFiles and hasStaleFileIndexes of
-- backend/internal/service/repo_cache_service.go. Times are numbers, in order.
pub mod Turns
use auto_restic.Shared.{
  ℕ, zero, suc, Bool, true, false, ◌||◌, List, [], ◌∷◌, Option, none, some, ltb, nat_eq, take,
  length, if◌then◌else◌,
}
use auto_restic.Exec.{Result, ok, err}
use auto_restic.Cache.Queue.{FileIndexRequest}
use auto_restic.Cache.State.{
  Domain, core, files, stats, keys, check, Status, stale, failed, interrupted, SyncState, FileIndex,
  Db, Env, M, ◌>>=◌, return, attempt,
}
use auto_restic.Cache.Rows.{get_sync_state, query, or_missing}
use auto_restic.Cache.Snapshots.{collect_root_paths}

abbrev pub max_planner_queues_per_round : ℕ
max_planner_queues_per_round = 4

pub record RefreshCandidate : Type 0 where
  pub repo_id : ℕ
  pub domain : Domain
  pub priority : ℕ
  pub due_at : ℕ
  pub updated_at : ℕ

-- the place of a domain's name among the names, by the alphabet
unfoldable pub name_place : Domain → ℕ
name_place check = 0
name_place core = 1
name_place files = 2
name_place keys = 3
name_place stats = 4

-- the two numbers where they differ, or what comes after them
unfoldable pub before_or : ℕ → ℕ → Bool → Bool
before_or m n rest = if nat_eq m n then rest else ltb m n

-- less of sort.Slice
unfoldable pub precedes : RefreshCandidate → RefreshCandidate → Bool
unfolding before_or name_place
precedes a b = before_or a.priority b.priority (
    before_or a.due_at b.due_at (
      before_or a.updated_at b.updated_at
        (before_or a.repo_id b.repo_id (ltb (name_place a.domain) (name_place b.domain)))))

-- sort.Slice
unfoldable pub insert_candidate : RefreshCandidate → List RefreshCandidate → List RefreshCandidate
insert_candidate a [] = a ∷ []
insert_candidate a (b ∷ bs) =
    let rest = insert_candidate a bs in if precedes b a then b ∷ rest else a ∷ b ∷ bs

unfoldable pub sort_candidates : List RefreshCandidate → List RefreshCandidate
unfolding insert_candidate
sort_candidates [] = []
sort_candidates (a ∷ cs) = insert_candidate a (sort_candidates cs)

unfoldable pub is_wanting : Status → Bool
is_wanting stale = true
is_wanting failed = true
is_wanting interrupted = true
is_wanting _ = false

abbrev pub any_stale : List FileIndex → Bool
any_stale [] = false
any_stale (index ∷ indexes) = index.stale || any_stale indexes

abbrev pub true_or_error : Result Bool → Bool
true_or_error (ok b) = b
true_or_error (err e) = false

abbrev pub some_paths : Result (List FileIndexRequest) → Bool
some_paths (ok (path ∷ paths)) = true
some_paths _ = false

-- whether there is a state that asks for a synchronisation
unfoldable pub wants_sync : Option SyncState → Bool
unfolding is_wanting
wants_sync none = false
wants_sync (some state) = is_wanting state.status

abbrev pub candidate_at : ℕ → Domain → ℕ → RefreshCandidate
candidate_at repo_id domain time = record {
  repo_id = repo_id;
  domain = domain;
  priority = 0;
  due_at = time;
  updated_at = time;
}

abbrev pub updated_or : ℕ → Option SyncState → ℕ
updated_or now none = now
updated_or now (some state) = state.updated_at

unfoldable pub wanting_candidate : ℕ → Domain → Option SyncState → Option RefreshCandidate
unfolding wants_sync
wanting_candidate repo_id domain none = none
wanting_candidate repo_id domain (some state) =
    if is_wanting state.status then some (candidate_at repo_id domain state.updated_at) else none

-- a repository, with what its statements do and the synchronisations that go on
pub record Planned : Type 1 where
  pub repo_id : ℕ
  pub env : Env
  pub rows : Db
  pub is_active : Domain → Bool

module _ (env : Env) where
  unfoldable pub has_stale_file_indexes : M Bool
  unfolding query
  has_stale_file_indexes = do
    found ← attempt (query env (λ db. any_stale db.file_indexes))
    return (true_or_error found)

  -- shouldQueueFiles where the state is read
  paths_wanted : (has_stale wanting : Bool) → M Bool
  unfolding collect_root_paths
  paths_wanted true wanting = return true
  paths_wanted false false = return false
  paths_wanted false true = attempt (collect_root_paths env) >>= λ paths. return (some_paths paths)

  files_wanted : Result (Option SyncState) → M Bool
  unfolding wants_sync paths_wanted has_stale_file_indexes
  files_wanted (err e) = return false
  files_wanted (ok state) =
      has_stale_file_indexes >>= λ has_stale. paths_wanted has_stale (wants_sync state)

  unfoldable pub should_queue_files : M Bool
  unfolding get_sync_state files_wanted
  should_queue_files = do
    found ← attempt (get_sync_state env files)
    state ← attempt (or_missing none found)
    files_wanted state

  files_candidate : ℕ → ℕ → Bool → M (Option RefreshCandidate)
  unfolding get_sync_state
  files_candidate now repo_id false = return none
  files_candidate now repo_id true = do
    found ← attempt (get_sync_state env files)
    state ← or_missing none found
    return (some (candidate_at repo_id files (updated_or now state)))

  state_candidate : ℕ → Domain → M (Option RefreshCandidate)
  unfolding get_sync_state wanting_candidate
  state_candidate repo_id domain = do
    found ← attempt (get_sync_state env domain)
    state ← or_missing none found
    return (wanting_candidate repo_id domain state)

  -- of a repository whose domain is not active
  unfoldable pub idle_candidate : ℕ → ℕ → Domain → M (Option RefreshCandidate)
  unfolding should_queue_files files_candidate state_candidate
  idle_candidate now repo_id files = should_queue_files >>= files_candidate now repo_id
  idle_candidate now repo_id domain = state_candidate repo_id domain

unfoldable pub refresh_candidate_for_domain :
    ℕ → Domain → Planned → Result (Option RefreshCandidate)
unfolding idle_candidate
refresh_candidate_for_domain now domain p =
    if p.is_active domain then ok none else (idle_candidate p.env now p.repo_id domain p.rows).1

-- nextRefreshCandidate, whose list of domains is the core alone
unfoldable pub next_refresh_candidate : ℕ → Planned → Result (Option RefreshCandidate)
unfolding refresh_candidate_for_domain
next_refresh_candidate now p = refresh_candidate_for_domain now core p

unfoldable pub add_candidate :
    Result (Option RefreshCandidate)
    → Result (List RefreshCandidate)
    → Result (List RefreshCandidate)
add_candidate (err e) rest = err e
add_candidate (ok c) (err e) = err e
add_candidate (ok none) (ok rest) = ok rest
add_candidate (ok (some c)) (ok rest) = ok (c ∷ rest)

unfoldable pub collect_candidates : ℕ → List Planned → Result (List RefreshCandidate)
unfolding next_refresh_candidate add_candidate
collect_candidates now [] = ok []
collect_candidates now (p ∷ ps) =
    add_candidate (next_refresh_candidate now p) (collect_candidates now ps)

unfoldable pub first_candidates : Result (List RefreshCandidate) → Result (List RefreshCandidate)
unfolding sort_candidates
first_candidates (err e) = err e
first_candidates (ok due) = ok (take max_planner_queues_per_round (sort_candidates due))

unfoldable pub plan_refresh_round : ℕ → List Planned → Result (List RefreshCandidate)
unfolding collect_candidates first_candidates
plan_refresh_round now ps = first_candidates (collect_candidates now ps)
