-- ===== src/Cache/Core.antt =====
-- The synchronisation of a repository's config and snapshots: runSyncCommand, commandPayload
-- and runCoreSync of backend/internal/service/repo_cache_service.go.
use auto_restic.Shared.{
  zero, ℕ, suc, Bool, true, List, [], ◌∷◌, ◌++◌, Option, none, some, Text, codes, is_zero,
  trim_space, if◌then◌else◌,
}
use auto_restic.Exec.{Error, command_failed, Result, ok, err, ExecResult}
use auto_restic.Cache.State.{
  core, running, failed, success, Db, M, ◌>>=◌, return, throw, asks, attempt, ignore, Env,
}
use auto_restic.Cache.Rows.{next_generation, set_sync_state, mark_files_domain_stale}
use auto_restic.Cache.Snapshots.{
  store_restic_config, replace_snapshots, finalize_core_generation,
  queue_latest_snapshot_root_prewarm,
}

-- what a command is worth: its stdout, or its error
abbrev pub command_payload : ExecResult × Option Error → Result Text
command_payload (result, some e) = err e
command_payload (result, none) =
    if is_zero result.exit_code
    then ok result.stdout
    else err (command_failed (trim_space (result.stderr ++ (10 ∷ result.stdout))))

abbrev pub log_id_or : Option ℕ → ℕ → ℕ
log_id_or (some log_id) own = log_id
log_id_or none own = own

module _ (env : Env) where
  unfoldable pub run_sync_command : List Text → Db → Result Text × ℕ
  run_sync_command args db =
      let reply = env.reported args db.executed in
      (command_payload reply, log_id_or (env.started args db.executed) reply.0.log_id)

  -- an error is noted in the sync state and passed on
  unfoldable pub note_failed :
      (phase : Text) → (progress log_id : ℕ) → {A : Type 0} → Result A → M A
  unfolding set_sync_state
  note_failed phase progress log_id (ok a) = return a
  note_failed phase progress log_id (err e) = do
    noted ←
        ignore
          (set_sync_state env core failed phase progress 0 none (env.error_text e) (some log_id))
    throw e

  -- with `if logID > 0`
  unfoldable pub note_log : (phase : Text) → (progress log_id : ℕ) → M Bool
  unfolding set_sync_state
  note_log phase progress zero = return true
  note_log phase progress (suc n) =
      ignore (set_sync_state env core running phase progress 0 none [] (some (suc n)))

  -- a step whose failure is noted
  unfoldable pub noting : {A : Type 0} → (phase : Text) → (progress log_id : ℕ) → M A → M A
  unfolding note_failed
  noting phase progress log_id step = do
    result ← attempt step
    note_failed phase progress log_id result

  -- one of restic's commands: its log is noted, and its failure
  unfoldable pub core_command : (phase : Text) → (progress : ℕ) → (args : List Text) → M (Text × ℕ)
  unfolding run_sync_command note_log note_failed
  core_command phase progress args = do
    reply ← asks (run_sync_command args)
    noted ← note_log phase progress reply.1
    payload ← note_failed phase progress reply.1 reply.0
    return (payload, reply.1)

  -- the end of runCoreSync
  unfoldable pub finish_core : ℕ → ℕ → M Bool
  finish_core generation log_id = do
    now ← asks (λ db. env.clock db.executed)
    finish ← set_sync_state env core success [] 100 generation (some now) [] (some log_id)
    files_stale ← ignore (mark_files_domain_stale env (codes "core sync completed"))
    ignore (queue_latest_snapshot_root_prewarm env)

  -- runCoreSync once the config is stored
  unfoldable pub sync_snapshots : ℕ → ℕ → M Bool
  unfolding core_command noting finish_core
  sync_snapshots generation config_log = do
    listing ← set_sync_state env core running (codes "snapshots") 50 0 none [] (some config_log)
    snapshots ← core_command (codes "snapshots") 75 (codes "snapshots" ∷ codes "--json" ∷ [])
    replaced ←
        noting (codes "snapshots") 75 snapshots.1 (replace_snapshots env generation snapshots.0)
    finalized ← noting (codes "snapshots") 90 snapshots.1 (finalize_core_generation env generation)
    finish_core generation snapshots.1

  -- runCoreSync once it has its generation
  unfoldable pub core_sync_of : ℕ → M Bool
  unfolding core_command noting sync_snapshots
  core_sync_of generation = do
    begun ← set_sync_state env core running (codes "config") 10 0 none [] none
    config ← core_command (codes "config") 25 (codes "cat" ∷ codes "config" ∷ [])
    stored ← noting (codes "config") 25 config.1 (store_restic_config env generation config.0)
    sync_snapshots generation config.1

  unfoldable pub run_core_sync : M Bool
  unfolding core_sync_of
  run_core_sync = do generation ← next_generation env core; core_sync_of generation
