-- ===== src/Task/Run.antt =====
-- Runs of a task: RunTask, markTaskActive, clearTaskActive, finishTaskRun and
-- runForgetPolicy of backend/internal/service/task_service.go.
pub mod Activity
pub mod Order
pub mod Success
use auto_restic.Shared.{
  ℕ, Bool, true, false, not, ◌&&◌, ◌||◌, List, [], ◌∷◌, Option, none, some, Text, codes, is_empty,
  Eq-Text, ◌==◌, Eq-ℕ, lookup, insert, erase, if◌then◌else◌, is_zero,
}
use auto_restic.Exec.{Value, Error, already_running, Result, ok, err, ExecResult, empty_result}
use auto_restic.Task.Args.{BackupTask, build_backup_args, forget_args}
use auto_restic.Task.Hooks.{
  Effect, ran_restic, updated_run_times, stored_summary, marked_stale, queued_core_sync, Env,
  run_hooks, merge_hook_failure,
}

-- The state of the service, `activeTasks`, and what it did.
pub record Service : Type 0 where
  pub active_tasks : List (ℕ × Bool)
  pub trace : List Effect

-- activeTasks[taskID]
unfoldable pub is_active : Service → ℕ → Bool
is_active s task_id = elim (lookup task_id s.active_tasks) [ none ↦ false | some b ↦ b ]

unfoldable pub mark_task_active : ℕ → Service → Service × Bool
unfolding is_active
mark_task_active task_id s =
    if is_active s task_id
    then (s, false)
    else (record s { active_tasks = insert task_id true s.active_tasks }, true)

unfoldable pub clear_task_active : ℕ → Service → Service
clear_task_active task_id s = record s { active_tasks = erase task_id s.active_tasks }

unfoldable pub calculate_next_run : (Text → Option ℕ) → Text → Bool → Option ℕ
calculate_next_run schedule cron_expr enabled =
    if not enabled || is_empty cron_expr then none else schedule cron_expr

abbrev pub or_manual : Text → Text
or_manual trigger = if is_empty trigger then codes "manual" else trigger

module _ (env : Env) where
  -- MarkStale and QueueCoreSync behind a command that may have failed
  unfoldable pub after_forget : ℕ → Result ExecResult → List Effect → List Effect
  after_forget repo (err e) trace = trace
  after_forget repo (ok result) trace =
      if is_zero result.exit_code then queued_core_sync repo ∷ marked_stale repo ∷ trace else trace

  -- the arguments behind "forget", if there are any
  unfoldable pub forget_with : BackupTask → Text → List Effect → List Text → List Effect
  unfolding after_forget
  forget_with task trigger trace [] = trace
  forget_with task trigger trace (arg ∷ args) =
      let trace' = ran_restic task.repo_id none trigger (codes "forget" ∷ arg ∷ args) ∷ trace in
      after_forget task.repo_id (env.restic_result trace') trace'

  unfoldable pub forget_decoded :
      BackupTask → Text → List Effect → Option (List (Text × Value env.json.Number)) → List Effect
  unfolding forget_with
  forget_decoded task trigger trace none = trace
  forget_decoded task trigger trace (some policy) =
      forget_with task trigger trace (forget_args env.json policy)

  unfoldable pub run_forget_policy : BackupTask → Text → List Effect → List Effect
  unfolding forget_decoded
  run_forget_policy task trigger trace =
      forget_decoded task trigger trace (env.json.object task.forget_policy)

  unfoldable pub has_forget_policy : BackupTask → Bool
  has_forget_policy task =
      not (task.forget_policy == codes "{}") && not (is_empty task.forget_policy)

  unfoldable pub finish_task_run : BackupTask → Text → ExecResult → List Effect → List Effect
  unfolding run_forget_policy has_forget_policy calculate_next_run
  finish_task_run task trigger result trace =
      let next = calculate_next_run env.schedule task.cron_expr task.cron_enabled in
      let updated = updated_run_times task.id next ∷ trace in
      if is_zero result.exit_code
      then (let stored = stored_summary task.repo_id result.stdout ∷ updated in
          let forgotten =
            if has_forget_policy task then run_forget_policy task trigger stored else stored in
          queued_core_sync task.repo_id ∷ marked_stale task.repo_id ∷ forgotten)
      else updated

  -- behind the post-hooks
  unfoldable pub after_post :
      ExecResult
      → List Effect × (ExecResult × Option Error)
      → List Effect × (ExecResult × Option Error)
  after_post result (trace, (hook_result, some e)) =
      (trace, (merge_hook_failure result hook_result (some e), some e))
  after_post result (trace, (hook_result, none)) = (trace, (result, none))

  -- behind the backup command
  unfoldable pub after_backup :
      BackupTask
      → Text
      → Result ExecResult
      → List Effect
      → List Effect × (ExecResult × Option Error)
  unfolding after_post
  after_backup task trigger (err e) trace = (trace, (empty_result, some e))
  after_backup task trigger (ok result) trace =
      let finished = finish_task_run task trigger result trace in
      after_post result (run_hooks env task trigger (codes "post") task.post_hooks finished)

  -- behind the pre-hooks
  after_pre :
      BackupTask
      → Text
      → List Text
      → List Effect × (ExecResult × Option Error)
      → List Effect × (ExecResult × Option Error)
  after_pre task trigger args (trace, (hook_result, some e)) = (trace, (hook_result, some e))
  after_pre task trigger args (trace, (hook_result, none)) =
      let trace' = ran_restic task.repo_id (some task.id) trigger args ∷ trace in
      after_backup task trigger (env.restic_result trace') trace'

  -- what RunTask does while the task is active
  unfoldable pub run_active :
      BackupTask → Text → List Text → List Effect → List Effect × (ExecResult × Option Error)
  unfolding after_post after_backup after_pre
  run_active task trigger args trace =
      after_pre task trigger args (run_hooks env task trigger (codes "pre") task.pre_hooks trace)

  -- RunTask behind buildBackupArgs
  with_args :
      BackupTask → ℕ → Text → Service → Result (List Text) → Service × (ExecResult × Option Error)
  unfolding run_active mark_task_active clear_task_active
  with_args task task_id trigger s (err e) = (s, (empty_result, some e))
  with_args task task_id trigger s (ok args) =
      let (marked, fresh) = mark_task_active task_id s in
      let (trace, outcome) = run_active task (or_manual trigger) args marked.trace in
      if fresh
      then (clear_task_active task_id (record marked { trace = trace }), outcome)
      else (marked, (empty_result, some (already_running task_id)))

  -- RunTask on what the store has under the id
  unfoldable pub run_task :
      Result BackupTask → ℕ → Text → Service → Service × (ExecResult × Option Error)
  unfolding with_args
  run_task (err e) task_id trigger s = (s, (empty_result, some e))
  run_task (ok task) task_id trigger s =
      with_args task task_id trigger s (build_backup_args env.json task)
