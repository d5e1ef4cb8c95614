-- ===== src/Task/Rows.antt =====
-- The rows of tasks: Create, Update, Toggle and Delete of
-- backend/internal/service/task_service.go, with the statements of
-- backend/internal/repository/task_store.go and the requests of
-- backend/internal/model/backup_task.go.
pub mod NextRun
pub mod Late
use auto_restic.Shared.{
  not, ℕ, suc, nat_eq, Bool, List, [], ◌∷◌, Option, none, some, Text, codes, is_empty,
  if◌then◌else◌, true,
}
use auto_restic.Exec.{Error, no_rows, Result, ok, err}
use auto_restic.Fallible
use auto_restic.Fallible.{continue_with, ◌>>=◌, lift}
use auto_restic.Task.Args.{BackupTask}
use auto_restic.Task.Run.{calculate_next_run}

pub record CreateTaskRequest : Type 0 where
  pub repo_id : ℕ
  pub name : Text
  pub source_paths : Text
  pub excludes : Text
  pub tags : Text
  pub cron_expr : Text
  pub cron_enabled : Bool
  pub forget_policy : Text
  pub pre_hooks : Text
  pub post_hooks : Text
  pub extra_flags : Text

pub record UpdateTaskRequest : Type 0 where
  pub name : Option Text
  pub source_paths : Option Text
  pub excludes : Option Text
  pub tags : Option Text
  pub cron_expr : Option Text
  pub cron_enabled : Option Bool
  pub forget_policy : Option Text
  pub pre_hooks : Option Text
  pub post_hooks : Option Text
  pub extra_flags : Option Text

pub record TaskRows : Type 0 where
  pub rows : List BackupTask
  pub next_id : ℕ

abbrev pub M : Type 0 → Type 0
M A = Fallible.M TaskRows A

-- When cron fires next, and the errors of statements, in one operation.
pub record RowsEnv : Type 0 where
  pub schedule : Text → Option ℕ
  pub get_error : Option Error
  pub write_error : Option Error

abbrev pub or_default : Text → Text → Text
or_default value fallback = if is_empty value then fallback else value

abbrev pub default_forget_policy : Text
default_forget_policy = codes "{\"keep-last\":\"unlimited\"}"

unfoldable pub new_task : (Text → Option ℕ) → CreateTaskRequest → ℕ → BackupTask
unfolding calculate_next_run
new_task schedule r id = record {
  id = id;
  repo_id = r.repo_id;
  name = r.name;
  source_paths = r.source_paths;
  excludes = r.excludes;
  tags = r.tags;
  cron_expr = r.cron_expr;
  cron_enabled = r.cron_enabled;
  forget_policy = or_default r.forget_policy default_forget_policy;
  pre_hooks = or_default r.pre_hooks (codes "[]");
  post_hooks = or_default r.post_hooks (codes "[]");
  extra_flags = or_default r.extra_flags (codes "{}");
  next_run_at = calculate_next_run schedule r.cron_expr r.cron_enabled;
}

abbrev pub or_old {ℓ} : {A : Type ℓ} → Option A → A → A
or_old none old = old
or_old (some new) old = new

-- The run that follows from the fields of a task.
unfoldable pub rescheduled : (Text → Option ℕ) → BackupTask → BackupTask
unfolding calculate_next_run
rescheduled schedule t = record t {
  next_run_at = calculate_next_run schedule t.cron_expr t.cron_enabled;
}

unfoldable pub changed_task : (Text → Option ℕ) → UpdateTaskRequest → BackupTask → BackupTask
unfolding rescheduled
changed_task schedule r t = rescheduled schedule (record {
  id = t.id;
  repo_id = t.repo_id;
  name = or_old r.name t.name;
  source_paths = or_old r.source_paths t.source_paths;
  excludes = or_old r.excludes t.excludes;
  tags = or_old r.tags t.tags;
  cron_expr = or_old r.cron_expr t.cron_expr;
  cron_enabled = or_old r.cron_enabled t.cron_enabled;
  forget_policy = or_old r.forget_policy t.forget_policy;
  pre_hooks = or_old r.pre_hooks t.pre_hooks;
  post_hooks = or_old r.post_hooks t.post_hooks;
  extra_flags = or_old r.extra_flags t.extra_flags;
  next_run_at = t.next_run_at;
})

unfoldable pub toggled_task : (Text → Option ℕ) → BackupTask → BackupTask
unfolding rescheduled
toggled_task schedule t = rescheduled schedule (record t { cron_enabled = not t.cron_enabled })

abbrev pub done : Option Error → Result Bool
done none = ok true
done (some e) = err e

unfoldable pub find_task : ℕ → List BackupTask → Option BackupTask
find_task id [] = none
find_task id (t ∷ ts) = let rest = find_task id ts in if nat_eq t.id id then some t else rest

abbrev pub found_task : Option BackupTask → Result BackupTask
found_task none = err no_rows
found_task (some t) = ok t

-- every row with this identifier, changed
unfoldable pub change_rows : ℕ → (BackupTask → BackupTask) → List BackupTask → List BackupTask
change_rows id f [] = []
change_rows id f (t ∷ ts) =
    let rest = change_rows id f ts in if nat_eq t.id id then f t ∷ rest else t ∷ rest

unfoldable pub other_tasks : ℕ → List BackupTask → List BackupTask
other_tasks id [] = []
other_tasks id (t ∷ ts) = let rest = other_tasks id ts in if nat_eq t.id id then rest else t ∷ rest

module _ (env : RowsEnv) where
  unfoldable pub get_task : ℕ → M BackupTask
  unfolding find_task
  get_task id s =
      continue_with (λ read s. (s, found_task (find_task id s.rows))) (lift (done env.get_error) s)

  -- A write of the whole row; the repository of a task is not among the columns.
  unfoldable pub write_task : BackupTask → M Bool
  unfolding change_rows
  write_task t s =
      continue_with
        (λ written s. (
          record s { rows = change_rows t.id (λ old. record t { repo_id = old.repo_id }) s.rows },
          ok true,
        ))
        (lift (done env.write_error) s)

  unfoldable pub create_task : CreateTaskRequest → M ℕ
  unfolding new_task
  create_task r s =
      continue_with
        (λ written s. (
          record s { rows = new_task env.schedule r s.next_id ∷ s.rows; next_id = suc s.next_id },
          ok s.next_id,
        ))
        (lift (done env.write_error) s)

  unfoldable pub update_task : ℕ → UpdateTaskRequest → M Bool
  unfolding get_task write_task changed_task
  update_task id r = do t ← get_task id; write_task (changed_task env.schedule r t)

  unfoldable pub toggle_task : ℕ → M Bool
  unfolding get_task write_task toggled_task
  toggle_task id = do t ← get_task id; write_task (toggled_task env.schedule t)

  unfoldable pub delete_task : ℕ → M Bool
  unfolding other_tasks
  delete_task id s =
      continue_with (λ written s. (record s { rows = other_tasks id s.rows }, ok true))
        (lift (done env.write_error) s)

  -- UpdateRunTimes, as finishTaskRun calls it with the task that its run has read
  unfoldable pub update_run_times : BackupTask → M Bool
  unfolding change_rows calculate_next_run
  update_run_times t s =
      continue_with
        (λ written s. (
          record s {
            rows =
                change_rows t.id
                  (λ old. record old {
                    next_run_at = calculate_next_run env.schedule t.cron_expr t.cron_enabled;
                  })
                  s.rows;
          },
          ok true,
        ))
        (lift (done env.write_error) s)

-- a request, and what it meets, or the end of a run of a task as the run has read it
pub data TaskRequest : Type 0 where
  create_request : RowsEnv → CreateTaskRequest → TaskRequest
  update_request : RowsEnv → ℕ → UpdateTaskRequest → TaskRequest
  toggle_request : RowsEnv → ℕ → TaskRequest
  delete_request : RowsEnv → ℕ → TaskRequest
  end_of_run : RowsEnv → BackupTask → TaskRequest

unfoldable pub serve_task : TaskRequest → TaskRows → TaskRows
unfolding create_task update_task toggle_task delete_task update_run_times
serve_task (create_request env r) s = (create_task env r s).0
serve_task (update_request env id r) s = (update_task env id r s).0
serve_task (toggle_request env id) s = (toggle_task env id s).0
serve_task (delete_request env id) s = (delete_task env id s).0
serve_task (end_of_run env t) s = (update_run_times env t s).0

unfoldable pub serve_tasks : List TaskRequest → TaskRows → TaskRows
unfolding serve_task
serve_tasks [] s = s
serve_tasks (r ∷ rs) s = serve_tasks rs (serve_task r s)
