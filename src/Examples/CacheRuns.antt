-- ===== src/Examples/CacheRuns.antt =====
-- Synchronisations of a repository: backend/internal/service/repo_cache_service.go.
use auto_restic.Shared.{
  ℕ, ◌<◌, ◌≡◌, ◌⊎◌, refl, true, false, List, [], ◌∷◌, Option, none, some, Text, codes, is_some,
  lookup, Eq-ℕ, text_eq, filter, if◌then◌else◌, pos,
}
use auto_restic.Exec.{Error, ExecResult, empty_result}
use auto_restic.Cache.Queue.{FileIndexRequest}
use auto_restic.Cache.State.{Db, Env}
use auto_restic.Cache.Core.{run_core_sync}
use auto_restic.Cache.Rows.{is_no_such_table, next_generation}
use auto_restic.Cache.Snapshots.{store_restic_config, of_generation}
use auto_restic.Cache.Triples.{Ends}
use auto_restic.Cache.Serving.{Serves, Refreshed, Unfinished}
use auto_restic.Cache.Refresh.{run_core_sync_atomic}
use auto_restic.Cache.Stuck.{Taken, run_core_sync_stuck}
use auto_restic.Cache.Work.{idle_work, ask, Reach, Step, Reach_requests_served}

-- restic, whose commands end with this exit code; the database does not fail
abbrev replies : ℕ → List Text → ExecResult × Option Error
replies code args = (record empty_result { log_id = 9; exit_code = pos code }, none)

abbrev snapshots_reply : ℕ → List Text → ExecResult × Option Error
snapshots_reply code [] = replies code []
snapshots_reply code (arg ∷ args) =
    if text_eq arg (codes "cat") then replies 0 (arg ∷ args) else replies code (arg ∷ args)

abbrev cache_env : ℕ → Env
cache_env code = record {
  fault = λ n. none;
  clock = λ n. n;
  reported = λ args n. snapshots_reply code args;
  started = λ args n. none;
  error_text = λ e. [];
  is_object = λ payload. true;
  decode_snapshots = λ payload. some [];
}

tables_exist :
    (code n : ℕ) (message : Text)
    → (cache_env code).fault n ≡ some message
    → is_no_such_table message ≡ false
tables_exist code n message e = absurd (no_fault e)
  where
    no_fault : ¬ none ≡ some message
    no_fault h = cc

abbrev no_rows : Db
no_rows = record {
  sync_states = λ d. none;
  restic_config = [];
  stats = [];
  snapshots = [];
  file_indexes = [];
  file_work = [];
  executed = 0;
}

no_rows-Serves : Serves 0 [] no_rows
unfolding of_generation filter
no_rows-Serves = record { current = refl; served = refl }

run_core_sync_atomic_example :
    Ends
      (λ a db'. Refreshed 1 db')
      (λ db'. Serves 0 [] db' ⊎ Unfinished (cache_env 0) 0 db')
      (run_core_sync (cache_env 0) no_rows)
run_core_sync_atomic_example =
    run_core_sync_atomic (cache_env 0) (tables_exist 0) 0 [] no_rows no_rows-Serves

-- A first synchronisation that stores the config, and then fails to list the snapshots.
abbrev after_failure : Db
after_failure = (run_core_sync (cache_env 1) no_rows).0

after_failure-Taken : Taken 0 after_failure
unfolding run_core_sync next_generation text_eq store_restic_config lookup
after_failure-Taken = record { current = refl; taken = refl }

run_core_sync_stuck_example :
    Ends (λ a db'. ⊥) (Taken 0) (run_core_sync (cache_env 0) after_failure)
run_core_sync_stuck_example =
    run_core_sync_stuck (cache_env 0) (tables_exist 0) 0 after_failure after_failure-Taken

abbrev docs : FileIndexRequest
docs = record { snapshot_id = codes "ab12"; path = codes "/docs"; force = false; prewarm = true }

Reach_requests_served_example :
    (0 < (ask docs idle_work).ensures)
    ⊎ ((is_some (ask docs idle_work).active ≡ true) ⊎ ((ask docs idle_work).queue ≡ []))
Reach_requests_served_example =
    Reach_requests_served (Reach.next Reach.start (Step.asks docs idle_work))
