-- ===== src/Task/Run/Order.antt =====
-- What a run of a task does when, and what it does not do after a failure.
use auto_restic.Shared.{
  ℕ, ◌≡◌, refl, ap, ◌∙◌, false, List, ◌∷◌, ◌++◌, Option, none, some, Text, codes, All, is_zero,
}
use auto_restic.Exec.{ExecResult, Error, ok}
use auto_restic.Task.Args.{BackupTask, build_backup_args}
use auto_restic.Task.Hooks.{Effect, ran_restic, updated_run_times, Env, run_hooks}
use auto_restic.Task.Hooks.Phases.{IsHook, run_hooks-IsHook}
use auto_restic.Task.Run.{
  clear_task_active, Service, is_active, run_task, run_active, after_pre, after_backup, after_post,
  finish_task_run, or_manual, calculate_next_run,
}
use auto_restic.Task.Run.Activity.{cleared, run_task_idle}

pub after_post_trace :
    (env : Env) (result : ExecResult) (v : List Effect × (ExecResult × Option Error))
    → (after_post env result v).0 ≡ v.0
unfolding after_post
after_post_trace env result (trace, (hook_result, none)) = refl
after_post_trace env result (trace, (hook_result, some e)) = refl

module _ (env : Env) (task : BackupTask) (task_id : ℕ) (trigger : Text) (s : Service)
    (args : List Text) where
  -- the phases of a run that is not refused
  abbrev pub before : List Effect × (ExecResult × Option Error)
  before = run_hooks env task (or_manual trigger) (codes "pre") task.pre_hooks s.trace

  abbrev pub backed_up : List Effect
  backed_up = ran_restic task.repo_id (some task.id) (or_manual trigger) args ∷ before.0

  pub trace_of_idle :
      build_backup_args env.json task ≡ ok args
      → is_active s task_id ≡ false
      → (run_task env (ok task) task_id trigger s).0.trace
        ≡ (run_active env task (or_manual trigger) args s.trace).0
  unfolding cleared clear_task_active
  trace_of_idle good idle =
      ap (λ r. r.0.trace) (run_task_idle env task task_id trigger s args good idle)

  outcome_of_idle :
      build_backup_args env.json task ≡ ok args
      → is_active s task_id ≡ false
      → (run_task env (ok task) task_id trigger s).1
        ≡ (run_active env task (or_manual trigger) args s.trace).1
  outcome_of_idle good idle =
      ap (λ r. r.1) (run_task_idle env task task_id trigger s args good idle)

  -- A failure of the pre-hooks ends the run: it ran hooks and nothing else, no restic command and no
  -- change of the task or the cache, and it reports the error of the hooks.
  pub run_task_pre_failure :
      (e : Error)
      → build_backup_args env.json task ≡ ok args
      → is_active s task_id ≡ false
      → before.1.1 ≡ some e
      → (ran : List Effect) × (((run_task env (ok task) task_id trigger s).0.trace ≡ ran ++ s.trace)
          × (All IsHook ran × ((run_task env (ok task) task_id trigger s).1.1 ≡ some e)))
  unfolding run_active after_pre
  run_task_pre_failure e good idle failed =
      let (ran, (eq, hooks)) =
        run_hooks-IsHook env task (or_manual trigger) (codes "pre") task.pre_hooks s.trace in
      (
        ran,
        (
          trace_of_idle good idle ∙ ap (λ r. r.0) (after_failed before failed) ∙ eq,
          (
            hooks,
            ap (λ r. r.1) (outcome_of_idle good idle)
                ∙ ap (λ r. r.1.1) (after_failed before failed)
                ∙ failed,
          ),
        ),
      )
    where
      after_failed :
          (v : List Effect × (ExecResult × Option Error))
          → v.1.1 ≡ some e
          → after_pre env task (or_manual trigger) args v ≡ v
      after_failed (trace, (result, none)) h = cc
      after_failed (trace, (result, some e')) h = refl

  -- what the run does behind its pre-hooks
  pub run_active_passed :
      before.1.1 ≡ none
      → run_active env task (or_manual trigger) args s.trace
        ≡ after_backup env task (or_manual trigger) (env.restic_result backed_up) backed_up
  unfolding run_active
  run_active_passed passed = go before passed
    where
      go :
          (v : List Effect × (ExecResult × Option Error))
          → v.1.1 ≡ none
          → after_pre env task (or_manual trigger) args v ≡ (
              let trace' = ran_restic task.repo_id (some task.id) (or_manual trigger) args ∷ v.0 in
              after_backup env task (or_manual trigger) (env.restic_result trace') trace')
      go (trace, (result, none)) h = refl
      go (trace, (result, some e)) h = cc

  -- A backup command that restic ends with another exit code than zero is not taken for a backup:
  -- after it the run only notes when it ran and runs the post-hooks. It stores no summary, marks
  -- nothing as stale, queues no synchronisation and applies no forget policy.
  pub run_task_backup_failure :
      (result : ExecResult)
      → build_backup_args env.json task ≡ ok args
      → is_active s task_id ≡ false
      → before.1.1 ≡ none
      → env.restic_result backed_up ≡ ok result
      → is_zero result.exit_code ≡ false
      → (ran : List Effect) × (((run_task env (ok task) task_id trigger s).0.trace
            ≡ ran
              ++ updated_run_times task.id
                  (calculate_next_run env.schedule task.cron_expr task.cron_enabled)
                ∷ backed_up)
          × All IsHook ran)
  unfolding finish_task_run after_backup after_post
  run_task_backup_failure result good idle passed backup failed =
      let noted =
        updated_run_times task.id (calculate_next_run env.schedule task.cron_expr task.cron_enabled)
        ∷ backed_up in
      let (ran, (eq, hooks)) =
        run_hooks-IsHook env task (or_manual trigger) (codes "post") task.post_hooks noted in
      (
        ran,
        (
          trace_of_idle good idle
              ∙ ap (λ r. r.0) (run_active_passed passed)
              ∙ ap (λ r. (after_backup env task (or_manual trigger) r backed_up).0) backup
              ∙ after_post_trace env result _
              ∙ ap
                  (λ t. (run_hooks env task (or_manual trigger) (codes "post") task.post_hooks t).0)
                  (finish_failed result failed)
              ∙ eq,
          hooks,
        ),
      )
    where
      finish_failed :
          (result : ExecResult)
          → is_zero result.exit_code ≡ false
          → finish_task_run env task (or_manual trigger) result backed_up
            ≡ updated_run_times task.id
                (calculate_next_run env.schedule task.cron_expr task.cron_enabled)
              ∷ backed_up
      finish_failed result h = rw h refl
