-- ===== src/Cache/Finish.antt =====
-- The end of a synchronisation of the snapshots, behind the transaction:
-- backend/internal/service/repo_cache_service.go.
use auto_restic.Cache.Steps.{generation_of-upsert_suc, upsert_status}
use auto_restic.Shared.{
  Eq-ℕ, map, codes, ℕ, suc, zero, ◌+◌, ◌⊎◌, ◌≡◌, refl, Bool, true, List, [], Option, none, some,
  Text, inr,
}
use auto_restic.Exec.{Result, ok, err}
use auto_restic.Cache.State.{
  stale, domain_index, asks, same_domain, core, files, success, SyncState, SnapshotRow, Db, Env,
}
use auto_restic.Cache.Rows.{
  log_id_of, last_success_of, mark_sync_state_stale, stale_index, sanitize_log_id,
  mark_files_domain_stale, exec, at_fault, counted, put_state, set_sync_state, generation_of,
  current_generation, get_sync_state,
}
use auto_restic.Cache.Snapshots.{
  enqueue_all, root_paths, collect_root_paths, queue_latest_snapshot_root_prewarm,
}
use auto_restic.Cache.Core.{finish_core}
use auto_restic.Cache.Triples.{
  Triple-ignore, Keeps-set_sync_state, Triple-on_error, Keeps-or_missing, Keeps-query,
  Keeps-attempt, Triple-bind, Triple-return, Keeps-exec, Triple, Ends, Keeps,
}
use auto_restic.Cache.Serving.{Serves, Refreshed, Stranded, Unfinished}

module _ (env : Env) (g : ℕ) (rows : List SnapshotRow) where
  pub Stranded-counted : (db : Db) → Stranded g db → Stranded g (counted db)
  Stranded-counted db s = record { current = s.current; kept = record { only = s.kept.only } }

  finish_lem :
      (now : ℕ) (log_id : Option ℕ)
      → Triple
          (Stranded g)
          (set_sync_state env core success [] 100 (g + 1) (some now) [] log_id)
          (λ a db. Refreshed (g + 1) db)
          (Unfinished env g)
  unfolding set_sync_state exec put_state same_domain domain_index
  finish_lem now log_id = record {
    ends = λ db s.
        ended db s (set_sync_state env core success [] 100 (g + 1) (some now) [] log_id db) refl
          (go db s (env.fault db.executed));
  }
    where
      ended :
          (db : Db)
          → Stranded g db
          → (v : Db × Result Bool)
          → set_sync_state env core success [] 100 (g + 1) (some now) [] log_id db ≡ v
          → Ends (λ a db. Refreshed (g + 1) db) (Stranded g) v
          → Ends (λ a db. Refreshed (g + 1) db) (Unfinished env g) v
      ended db s (db', ok a) e h = h
      ended db s (db', err x) e h = record {
        before = db;
        now = now;
        log_id = log_id;
        error = x;
        was_stranded = s;
        failed = e;
        is_stranded = h;
      }

      go :
          (db : Db)
          → Stranded g db
          → (v : Option Text)
          → Ends
              (λ a db. Refreshed (g + 1) db)
              (Stranded g)
              (at_fault {A = Bool} v (counted db) (
                put_state core
                    (record {
                      status = success;
                      phase = [];
                      progress = 100;
                      generation = g + 1;
                      last_success_at = some now;
                      last_error = [];
                      log_id = sanitize_log_id log_id;
                      updated_at = env.clock db.executed;
                    })
                    (counted db),
                ok true,
              ))
      go db s (some message) = Stranded-counted db s
      go db s none = record {
        current = generation_of-upsert_suc _ (db.sync_states core) g refl;
        succeeded = upsert_status _ (db.sync_states core);
        kept = record { only = s.kept.only };
      }

  Refreshed-counted : (db : Db) → Refreshed (g + 1) db → Refreshed (g + 1) (counted db)
  Refreshed-counted db r = record {
    current = r.current;
    succeeded = r.succeeded;
    kept = record { only = r.kept.only };
  }

  -- the statements on the files leave the snapshots alone
  Keeps-mark_sync_state_stale :
      (message : Text) → Keeps (Refreshed (g + 1)) (mark_sync_state_stale env files message)
  unfolding mark_sync_state_stale get_sync_state put_state same_domain domain_index
  Keeps-mark_sync_state_stale message =
      Triple-bind {Q = λ found db. Refreshed (g + 1) db}
        (Keeps-attempt (Keeps-query env Refreshed-counted (λ db. db.sync_states files)))
        (λ found.
          Triple-bind {Q = λ state db. Refreshed (g + 1) db} (Keeps-or_missing none found) (λ state.
            Keeps-set_sync_state env Refreshed-counted files put_files stale [] 0
              (generation_of state) (last_success_of state) message (log_id_of state)))
    where
      put_files :
          (new : SyncState) (db : Db)
          → Refreshed (g + 1) db
          → Refreshed (g + 1) (put_state files new db)
      put_files new db r = record {
        current = r.current;
        succeeded = r.succeeded;
        kept = record { only = r.kept.only };
      }

  Keeps-mark_files :
      (message : Text) → Keeps (Refreshed (g + 1)) (mark_files_domain_stale env message)
  unfolding mark_files_domain_stale
  Keeps-mark_files message =
      Triple-bind {Q = λ a db. Refreshed (g + 1) db}
        (Keeps-exec env Refreshed-counted
          (λ db. record db { file_indexes = map stale_index db.file_indexes })
          (λ db r. record {
            current = r.current;
            succeeded = r.succeeded;
            kept = record { only = r.kept.only };
          }))
        (λ a. Keeps-mark_sync_state_stale message)

  Keeps-current_generation : Keeps (Refreshed (g + 1)) (current_generation env core)
  unfolding current_generation get_sync_state
  Keeps-current_generation =
      Triple-bind {Q = λ found db. Refreshed (g + 1) db}
        (Keeps-attempt (Keeps-query env Refreshed-counted (λ db. db.sync_states core)))
        (λ found.
          Triple-bind {Q = λ state db. Refreshed (g + 1) db} (Keeps-or_missing none found)
            (λ state. Triple-return {a = generation_of state} (λ db r. r)))

  Keeps-prewarm : Keeps (Refreshed (g + 1)) (queue_latest_snapshot_root_prewarm env)
  unfolding queue_latest_snapshot_root_prewarm collect_root_paths root_paths
  Keeps-prewarm =
      Triple-bind {Q = λ a db. Refreshed (g + 1) db}
        {f = λ paths db. (record db { file_work = enqueue_all paths db.file_work }, ok true)}
        (Triple-bind {Q = λ a db. Refreshed (g + 1) db} Keeps-current_generation rooted)
        (λ paths. record {
          ends = λ db r. record {
            current = r.current;
            succeeded = r.succeeded;
            kept = record { only = r.kept.only };
          };
        })
    where
      rooted : (n : ℕ) → Keeps (Refreshed (g + 1)) (root_paths env n)
      rooted zero = Triple-return (λ db r. r)
      rooted (suc n) = Keeps-query env Refreshed-counted _

  pub finish_core_lem :
      (log_id : ℕ)
      → Triple
          (Stranded g)
          (finish_core env (g + 1) log_id)
          (λ a db. Refreshed (g + 1) db)
          (λ db. Serves g rows db ⊎ Unfinished env g db)
  unfolding finish_core
  finish_core_lem log_id =
      Triple-bind {Q = λ now db. Stranded g db} {m = asks (λ db. env.clock db.executed)}
        (record { ends = λ db h. h })
        (λ now.
          Triple-bind (Triple-on_error (finish_lem now (some log_id)) (λ db h. inr h)) (λ finish.
            Triple-bind (Triple-ignore (Keeps-mark_files (codes "core sync completed")))
              (λ files_stale. Triple-ignore Keeps-prewarm)))
