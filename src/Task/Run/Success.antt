-- ===== src/Task/Run/Success.antt =====
-- What a run of a task does behind a backup command with exit code zero: finishTaskRun and
-- runForgetPolicy of backend/internal/service/task_service.go.
use auto_restic.Shared.{
  if◌then◌else◌, Bool, true, false, ℕ, ◌≡◌, refl, ap, ◌∙◌, List, [], ◌∷◌, ◌++◌, Option, none, some,
  Text, codes, All, is_zero,
}
use auto_restic.Exec.{ExecResult, Result, ok, err, Value}
use auto_restic.Task.Args.{BackupTask, build_backup_args}
use auto_restic.Task.Hooks.{
  Effect, ran_restic, updated_run_times, stored_summary, marked_stale, queued_core_sync, Env,
  run_hooks,
}
use auto_restic.Task.Hooks.Phases.{IsHook, run_hooks-IsHook}
use auto_restic.Task.Run.{
  Service, is_active, run_task, run_forget_policy, forget_with, forget_decoded, forget_args,
  after_forget, has_forget_policy, after_backup, after_post, finish_task_run, or_manual,
  calculate_next_run,
}
use auto_restic.Task.Run.Order.{
  before, backed_up, trace_of_idle, run_active_passed, after_post_trace,
}

-- what the forget policy of a repository may do
pub data IsForget (repo : ℕ) : Effect → Type 0 where
  forget_command :
      {trigger : Text} {args : List Text}
      → IsForget repo (ran_restic repo none trigger (codes "forget" ∷ args))
  marks : IsForget repo (marked_stale repo)
  queues : IsForget repo (queued_core_sync repo)

-- A trace is another one with effects of the forget policy in front.
abbrev Forgets : BackupTask → List Effect → List Effect → Type 0
Forgets task trace trace' =
    (added : List Effect) × ((trace' ≡ added ++ trace) × All (IsForget task.repo_id) added)

module _ (env : Env) (task : BackupTask) (trigger : Text) (trace : List Effect) where
  run_forget_policy-Forgets : Forgets task trace (run_forget_policy env task trigger trace)
  unfolding run_forget_policy forget_decoded forget_with after_forget
  run_forget_policy-Forgets = decoded (env.json.object task.forget_policy)
    where
      command : List Text → Effect
      command args = ran_restic task.repo_id none trigger (codes "forget" ∷ args)

      zero_code :
          (args : List Text) (b : Bool)
          → Forgets task trace (
              if b
              then queued_core_sync task.repo_id ∷ marked_stale task.repo_id ∷ command args ∷ trace
              else command args ∷ trace)
      zero_code args true = (
        queued_core_sync task.repo_id ∷ marked_stale task.repo_id ∷ command args ∷ [],
        (refl, (queues, (marks, (forget_command, tt)))),
      )
      zero_code args false = (command args ∷ [], (refl, (forget_command, tt)))

      behind :
          (args : List Text) (r : Result ExecResult)
          → Forgets task trace (after_forget env task.repo_id r (command args ∷ trace))
      behind args (err e) = (command args ∷ [], (refl, (forget_command, tt)))
      behind args (ok result) = zero_code args (is_zero result.exit_code)

      with_list : (args : List Text) → Forgets task trace (forget_with env task trigger trace args)
      with_list [] = ([], (refl, tt))
      with_list (arg ∷ args) =
          behind (arg ∷ args) (env.restic_result (command (arg ∷ args) ∷ trace))

      decoded :
          (policy : Option (List (Text × Value env.json.Number)))
          → Forgets task trace (forget_decoded env task trigger trace policy)
      decoded none = ([], (refl, tt))
      decoded (some policy) = with_list (forget_args env.json policy)

  policy-Forgets :
      (b : Bool)
      → Forgets task trace (if b then run_forget_policy env task trigger trace else trace)
  policy-Forgets true = run_forget_policy-Forgets
  policy-Forgets false = ([], (refl, tt))

module _ (env : Env) (task : BackupTask) (task_id : ℕ) (trigger : Text) (s : Service)
    (args : List Text) where
  -- A backup command with exit code zero is finished as a backup, whatever error its result holds:
  -- the run notes when it ran, stores the summary, does at most what a forget policy does, marks the
  -- cache of the repository as stale, queues its synchronisation, and runs the post-hooks.
  pub run_task_backup_success :
      (result : ExecResult)
      → build_backup_args env.json task ≡ ok args
      → is_active s task_id ≡ false
      → (before env task task_id trigger s args).1.1 ≡ none
      → env.restic_result (backed_up env task task_id trigger s args) ≡ ok result
      → is_zero result.exit_code ≡ true
      → (ran : List Effect) × ((forgot : List Effect) × (((run_task env
                (ok task)
                task_id
                trigger
                s).0.trace
              ≡ ran
                ++ queued_core_sync task.repo_id
                  ∷ marked_stale task.repo_id
                  ∷ (forgot
                      ++ stored_summary task.repo_id result.stdout
                        ∷ updated_run_times task.id
                            (calculate_next_run env.schedule task.cron_expr task.cron_enabled)
                        ∷ backed_up env task task_id trigger s args))
            × (All IsHook ran × All (IsForget task.repo_id) forgot)))
  unfolding finish_task_run after_backup after_post
  run_task_backup_success result good idle passed backup succeeded =
      let stored =
        stored_summary task.repo_id result.stdout
        ∷ updated_run_times task.id
            (calculate_next_run env.schedule task.cron_expr task.cron_enabled)
        ∷ backed_up env task task_id trigger s args in
      let (forgot, (forgot_eq, forgets)) =
        policy-Forgets env task (or_manual trigger) stored (has_forget_policy env task) in
      let finished =
        queued_core_sync task.repo_id ∷ marked_stale task.repo_id ∷ (forgot ++ stored) in
      let (ran, (eq, hooks)) =
        run_hooks-IsHook env task (or_manual trigger) (codes "post") task.post_hooks finished in
      (
        ran,
        (
          forgot,
          (
            trace_of_idle env task task_id trigger s args good idle
                ∙ ap (λ r. r.0) (run_active_passed env task task_id trigger s args passed)
                ∙ ap
                    (λ r.
                      (after_backup env task (or_manual trigger) r
                        (backed_up env task task_id trigger s args)).0)
                    backup
                ∙ after_post_trace env result _
                ∙ ap
                    (λ t.
                      (run_hooks env task (or_manual trigger) (codes "post") task.post_hooks t).0)
                    (finish_passed succeeded
                      ∙ ap (λ t. queued_core_sync task.repo_id ∷ marked_stale task.repo_id ∷ t)
                          forgot_eq)
                ∙ eq,
            (hooks, forgets),
          ),
        ),
      )
    where
      finish_passed :
          is_zero result.exit_code ≡ true
          → finish_task_run env task
              (or_manual trigger)
              result
              (backed_up env task task_id trigger s args)
            ≡ (let stored =
                  stored_summary task.repo_id result.stdout
                  ∷ updated_run_times task.id
                      (calculate_next_run env.schedule task.cron_expr task.cron_enabled)
                  ∷ backed_up env task task_id trigger s args in
                queued_core_sync task.repo_id
                ∷ marked_stale task.repo_id
                ∷ (if has_forget_policy env task
                    then run_forget_policy env task (or_manual trigger) stored
                    else stored))
      finish_passed h = rw h refl
