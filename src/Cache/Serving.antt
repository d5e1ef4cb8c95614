-- ===== src/Cache/Serving.antt =====
-- What is served while a synchronisation of the snapshots goes on:
-- backend/internal/service/repo_cache_service.go.
use auto_restic.Cache.Steps.{status_of, generation_of-upsert_zero}
use auto_restic.Shared.{
  Eq-ℕ, lookup, codes, ℕ, ◌+◌, ◌≡◌, refl, ◌∙◌, Bool, true, false, List, [], ◌∷◌, Option, none, some,
  Text, arith, filter, nat_eq, nat_eq_iff, if◌then◌else◌,
}
use auto_restic.Exec.{Error, parse_error, ok, err}
use auto_restic.Cache.State.{same_domain, core, success, SyncState, Snapshot, SnapshotRow, Db, Env}
use auto_restic.Cache.Rows.{set_sync_state, exec, at_fault, counted, put_state, generation_of}
use auto_restic.Cache.Snapshots.{
  insert_config, decoded, of_generation, upsert_snapshot, insert_snapshot, insert_snapshots,
  store_restic_config, replace_snapshots, finalize_core_generation, keep_generation,
}
use auto_restic.Cache.Triples.{Triple, Ends, Keeps}

-- What ListSnapshotIndex serves: the generation of the sync state, and its rows.
pub record Serves (generation : ℕ) (rows : List SnapshotRow) (db : Db) : Type 0 where
  pub current : generation_of (db.sync_states core) ≡ generation
  pub served : of_generation generation db.snapshots ≡ rows

-- Rows of one generation only.
pub record Only (generation : ℕ) (db : Db) : Type 0 where
  pub only : of_generation generation db.snapshots ≡ db.snapshots

pub record Refreshed (generation : ℕ) (db : Db) : Type 0 where
  pub current : generation_of (db.sync_states core) ≡ generation
  pub succeeded : status_of (db.sync_states core) ≡ some success
  pub kept : Only generation db

-- between the transaction that removes the old rows and the statement that makes the new ones
-- current
pub record Stranded (g : ℕ) (db : Db) : Type 0 where
  pub current : generation_of (db.sync_states core) ≡ g
  pub kept : Only (g + 1) db

-- The statement that makes the new generation current has failed, the last of a synchronisation.
pub record Unfinished (env : Env) (g : ℕ) (db : Db) : Type 0 where
  pub before : Db
  pub now : ℕ
  pub log_id : Option ℕ
  pub error : Error
  pub was_stranded : Stranded g before
  pub failed :
      set_sync_state env core success [] 100 (g + 1) (some now) [] log_id before ≡ (db, err error)
  pub is_stranded : Stranded g db

of_generation-upsert :
    (g : ℕ) (new : SnapshotRow) (rows : List SnapshotRow)
    → nat_eq new.generation g ≡ false
    → of_generation g (upsert_snapshot new rows) ≡ of_generation g rows
unfolding of_generation upsert_snapshot filter
of_generation-upsert g new [] other = rw other refl
of_generation-upsert g new (row ∷ rows) other =
    ground (arith, of_generation-upsert g new rows other, nat_eq_iff row.generation new.generation)

of_generation-insert_snapshots :
    (g : ℕ) (snaps : List Snapshot) (rows : List SnapshotRow)
    → of_generation g (insert_snapshots (g + 1) snaps rows) ≡ of_generation g rows
unfolding insert_snapshots insert_snapshot
of_generation-insert_snapshots g [] rows = refl
of_generation-insert_snapshots g (snap ∷ snaps) rows =
    of_generation-insert_snapshots g snaps (insert_snapshot (g + 1) snap rows)
    ∙ of_generation-upsert g _ rows (ground (arith, nat_eq_iff (g + 1) g))

of_generation-of_generation :
    (g : ℕ) (rows : List SnapshotRow)
    → of_generation g (of_generation g rows) ≡ of_generation g rows
unfolding of_generation filter
of_generation-of_generation g [] = refl
of_generation-of_generation g (row ∷ rows) = ground (arith, of_generation-of_generation g rows)

module _ (env : Env) (g : ℕ) (rows : List SnapshotRow) where
  pub Serves-counted : (db : Db) → Serves g rows db → Serves g rows (counted db)
  Serves-counted db s = record { current = s.current; served = s.served }

  pub Serves-put_state :
      (new : SyncState) (db : Db)
      → new.generation ≡ 0
      → Serves g rows db
      → Serves g rows (put_state core new db)
  unfolding put_state same_domain
  Serves-put_state new db given s = record {
    current = generation_of-upsert_zero new (db.sync_states core) given ∙ s.current;
    served = s.served;
  }

  pub Keeps-store_restic_config :
      (payload : Text) → Keeps (Serves g rows) (store_restic_config env (g + 1) payload)
  unfolding store_restic_config insert_config
  Keeps-store_restic_config payload = record {
    ends = λ db s.
        go db s (env.is_object payload) (env.fault db.executed) (lookup (g + 1) db.restic_config);
  }
    where
      inserted :
          (db : Db)
          → Serves g rows db
          → (taken : Option Text)
          → Ends
              (λ a db. Serves g rows db)
              (Serves g rows)
              (insert_config env (g + 1) payload taken (counted db))
      inserted db s none = record { current = s.current; served = s.served }
      inserted db s (some old) = Serves-counted db s

      go :
          (db : Db)
          → Serves g rows db
          → (object : Bool) (v : Option Text) (taken : Option Text)
          → Ends
              (λ a db. Serves g rows db)
              (Serves g rows)
              ((if object
                then at_fault v (counted db) (insert_config env (g + 1) payload taken (counted db))
                else (db, err (parse_error (codes "config")))))
      go db s false v taken = s
      go db s true (some message) taken = Serves-counted db s
      go db s true none taken = inserted db s taken

  pub Keeps-replace_snapshots :
      (payload : Text) → Keeps (Serves g rows) (replace_snapshots env (g + 1) payload)
  unfolding replace_snapshots
  Keeps-replace_snapshots payload = record {
    ends = λ db s. go db s (env.fault db.executed) (env.decode_snapshots payload);
  }
    where
      go :
          (db : Db)
          → Serves g rows db
          → (v : Option Text) (snaps : Option (List Snapshot))
          → Ends
              (λ a db. Serves g rows db)
              (Serves g rows)
              (at_fault {A = Bool} v (counted db) (decoded env (g + 1) snaps (counted db)))
      go db s (some message) snaps = Serves-counted db s
      go db s none none = Serves-counted db s
      go db s none (some snaps) = record {
        current = s.current;
        served = of_generation-insert_snapshots g snaps db.snapshots ∙ s.served;
      }

  pub finalize_lem :
      Triple
        (Serves g rows)
        (finalize_core_generation env (g + 1))
        (λ a db. Stranded g db)
        (Serves g rows)
  unfolding finalize_core_generation exec keep_generation
  finalize_lem = record { ends = λ db s. go db s (env.fault db.executed) }
    where
      go :
          (db : Db)
          → Serves g rows db
          → (v : Option Text)
          → Ends
              (λ a db. Stranded g db)
              (Serves g rows)
              (at_fault {A = Bool} v (counted db) (keep_generation (g + 1) (counted db), ok true))
      go db s (some message) = Serves-counted db s
      go db s none = record {
        current = s.current;
        kept = record { only = of_generation-of_generation (g + 1) db.snapshots };
      }
