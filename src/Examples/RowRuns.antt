-- ===== src/Examples/RowRuns.antt =====
-- Rows of tasks, and an end of a run between requests: backend/internal/service/task_service.go.
use auto_restic.Shared.{refl, ℕ, true, List, [], ◌∷◌, Option, none, some, Text, codes}
use auto_restic.Task.Rows.{
  CreateTaskRequest, RowsEnv, TaskRequest, create_request, toggle_request, end_of_run, new_task,
  create_task, serve_task, serve_tasks,
}
use auto_restic.Task.Rows.NextRun.{AllScheduled, AllUnchanged, serve_tasks-AllScheduled}

abbrev nightly : Text → Option ℕ
nightly expr = some 86400

abbrev home_request : CreateTaskRequest
home_request = record {
  repo_id = 7;
  name = codes "home";
  source_paths = codes "/home";
  excludes = [];
  tags = [];
  cron_expr = codes "0 2 * * *";
  cron_enabled = true;
  forget_policy = [];
  pre_hooks = [];
  post_hooks = [];
  extra_flags = [];
}

abbrev rows_env : RowsEnv
rows_env = record { schedule = nightly; get_error = none; write_error = none }

abbrev task_requests : List TaskRequest
task_requests =
    create_request rows_env home_request
    ∷ end_of_run rows_env (new_task nightly home_request 1)
    ∷ toggle_request rows_env 1
    ∷ []

task_requests-AllUnchanged : AllUnchanged task_requests (record { rows = []; next_id = 1 })
unfolding serve_task create_task
task_requests-AllUnchanged = (tt, ((λ same. (refl, refl), tt), (tt, tt)))

serve_tasks-AllScheduled_example :
    AllScheduled (serve_tasks task_requests (record { rows = []; next_id = 1 }))
serve_tasks-AllScheduled_example = serve_tasks-AllScheduled task_requests task_requests-AllUnchanged
