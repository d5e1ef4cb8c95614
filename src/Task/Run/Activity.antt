-- ===== src/Task/Run/Activity.antt =====
-- Which tasks are active before and after a run.
use auto_restic.Shared.{
  ℕ, ◌≡◌, refl, ap, ◌∙◌, true, false, some, Text, inl, inr, Bool-cases, Eq-ℕ, nat_eq_iff, insert,
  lookup-insert, lookup-erase, arith, List,
}
use auto_restic.Exec.{empty_result, Result, ok, err, Error, already_running}
use auto_restic.Task.Args.{BackupTask, build_backup_args}
use auto_restic.Task.Hooks.{Env, Effect}
use auto_restic.Task.Run.{
  with_args, or_manual, Service, is_active, mark_task_active, clear_task_active, run_task,
  run_active,
}

-- The service after a run that marked the task and cleared it again.
unfoldable pub cleared : ℕ → List Effect → Service → Service
unfolding clear_task_active mark_task_active
cleared task_id trace s =
    clear_task_active task_id (record (mark_task_active task_id s).0 { trace = trace })

is_active-cleared :
    (task_id id : ℕ) (trace : List Effect) (s : Service)
    → is_active s task_id ≡ false
    → is_active (cleared task_id trace s) id ≡ is_active s id
unfolding is_active cleared clear_task_active mark_task_active
is_active-cleared task_id id trace s idle = ground (
  arith,
  lookup-insert task_id id true s.active_tasks,
  lookup-erase task_id id (insert task_id true s.active_tasks),
  nat_eq_iff task_id id,
)

pub run_task_bad :
    (env : Env) (task : BackupTask) (task_id : ℕ) (trigger : Text) (s : Service) (e : Error)
    → build_backup_args env.json task ≡ err e
    → run_task env (ok task) task_id trigger s ≡ (s, (empty_result, some e))
unfolding run_task with_args
run_task_bad env task task_id trigger s e bad = ap (with_args env task task_id trigger s) bad

-- A task that runs is not run a second time: nothing changes, no command is run, and the caller is
-- told so.
pub run_task_busy :
    (env : Env) (task : BackupTask) (task_id : ℕ) (trigger : Text) (s : Service) (args : List Text)
    → build_backup_args env.json task ≡ ok args
    → is_active s task_id ≡ true
    → run_task env (ok task) task_id trigger s ≡ (s, (empty_result, some (already_running task_id)))
unfolding run_task with_args mark_task_active
run_task_busy env task task_id trigger s args good busy =
    ap (with_args env task task_id trigger s) good ∙ rw busy refl

pub run_task_idle :
    (env : Env) (task : BackupTask) (task_id : ℕ) (trigger : Text) (s : Service) (args : List Text)
    → build_backup_args env.json task ≡ ok args
    → is_active s task_id ≡ false
    → run_task env (ok task) task_id trigger s ≡ (
      cleared task_id (run_active env task (or_manual trigger) args s.trace).0 s,
      (run_active env task (or_manual trigger) args s.trace).1,
    )
unfolding run_task with_args mark_task_active cleared
run_task_idle env task task_id trigger s args good idle =
    ap (with_args env task task_id trigger s) good ∙ rw idle refl

-- A run leaves every task as active or as idle as it was, its own among them, whatever fails.
pub run_task_activity :
    (env : Env) (found : Result BackupTask) (task_id : ℕ) (trigger : Text) (s : Service) (id : ℕ)
    → is_active (run_task env found task_id trigger s).0 id ≡ is_active s id
unfolding run_task
run_task_activity env (err e) task_id trigger s id = refl
run_task_activity env (ok task) task_id trigger s id = go (build_backup_args env.json task) refl
  where
    go :
        (args : Result (List Text))
        → build_backup_args env.json task ≡ args
        → is_active (run_task env (ok task) task_id trigger s).0 id ≡ is_active s id
    go (err e) bad = ap (λ r. is_active r.0 id) (run_task_bad env task task_id trigger s e bad)
    go (ok args) good = elim (Bool-cases (is_active s task_id)) [
      | inl busy ↦
          ap (λ r. is_active r.0 id) (run_task_busy env task task_id trigger s args good busy)
      | inr idle ↦
          ap (λ r. is_active r.0 id) (run_task_idle env task task_id trigger s args good idle)
          ∙ is_active-cleared task_id id (run_active env task (or_manual trigger) args s.trace).0 s
              idle
    ]
