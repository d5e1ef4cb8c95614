-- ===== src/Examples/TaskRuns.antt =====
-- A task and its runs: backend/internal/service/task_service.go.
use mathlib.Core.List.{Permᴰ}
use auto_restic.Shared.{
  trim_space, ℕ, ◌≡◌, refl, true, false, List, [], ◌∷◌, ◌++◌, Option, none, some, Text, codes, pos,
  is_empty, lookup, Eq-Text, All, if◌then◌else◌, ltb, nat_eq, text_eq,
}
use auto_restic.Exec.{
  ok, ExecResult, empty_result, Value, string, Json, insert_log_failed, external,
}
use auto_restic.Guard.{Runs, Step, Reach, set_running}
use auto_restic.Task.Sort.{sort_texts}
use auto_restic.Task.Args.{
  build_extra_flag_args, BackupTask, is_allowed, keys_of, build_flags, build_backup_args,
  contains_arg,
}
use auto_restic.Task.Args.Flags.{IsFlagArg, build_flags_whitelist, build_flags_order}
use auto_restic.Task.Hooks.{
  parse_hook_commands, Effect, updated_run_times, stored_summary, marked_stale, queued_core_sync,
  Env, run_hooks,
}
use auto_restic.Task.Hooks.Phases.{IsHook}
use auto_restic.Task.Run.{is_active, mark_task_active, run_task, calculate_next_run}
use auto_restic.Task.Run.Activity.{run_task_activity}
use auto_restic.Task.Run.Order.{before, backed_up, run_task_backup_failure}
use auto_restic.Task.Run.Success.{IsForget, run_task_backup_success}
use auto_restic.Task.Guarded.{new_service, task_guard, tasks_run_once}

-- A decoder that takes `[]` for no texts, and any other text but the empty one for itself.
abbrev pub one_string : Text → Option (List Text)
one_string raw =
    if is_empty raw then none else if text_eq raw (codes "[]") then some [] else some (raw ∷ [])

abbrev pub plain_json : Json
plain_json = record {
  Number = ℕ;
  is_positive = ltb 0;
  is_two = nat_eq 2;
  format = λ n. codes "9";
  strings = one_string;
  object = λ raw. some [];
}

abbrev pub home_task : BackupTask
home_task = record {
  id = 4;
  repo_id = 7;
  name = codes "home";
  source_paths = codes "/home";
  excludes = codes "[]";
  tags = codes "[]";
  cron_expr = [];
  cron_enabled = false;
  forget_policy = codes "{}";
  pre_hooks = [];
  post_hooks = [];
  extra_flags = codes "{}";
  next_run_at = none;
}

abbrev pub home_args : List Text
home_args = codes "backup" ∷ codes "--json" ∷ codes "/home" ∷ []

pub home_task-args : build_backup_args plain_json home_task ≡ ok home_args
unfolding build_backup_args contains_arg text_eq build_extra_flag_args
home_task-args = refl

abbrev host_flags : List (Text × Value ℕ)
host_flags = (codes "--host", string (codes "a")) ∷ []

abbrev host_args : List Text
host_args = codes "--host" ∷ codes "a" ∷ []

host_flags-args : build_flags plain_json host_flags ≡ ok host_args
unfolding build_flags is_allowed contains_arg text_eq sort_texts lookup
host_flags-args = refl

build_flags_whitelist_example :
    All (λ key. is_allowed key ≡ true) (keys_of host_flags)
    × All (IsFlagArg plain_json host_flags) host_args
build_flags_whitelist_example =
    build_flags_whitelist plain_json host_flags host_args host_flags-args

host_keys-Permᴰ : Permᴰ (keys_of host_flags) (keys_of host_flags)
unfolding keys_of
host_keys-Permᴰ = Permᴰ.cons refl Permᴰ.nil

build_flags_order_example : build_flags plain_json host_flags ≡ build_flags plain_json host_flags
build_flags_order_example =
    build_flags_order plain_json host_flags host_flags host_keys-Permᴰ (λ key. refl)

-- Commands that end with this exit code.
abbrev pub exits : ℕ → ExecResult
exits code = record empty_result { exit_code = pos code }

abbrev pub env_of : ℕ → ℕ → Env
env_of hook_code restic_code = record {
  json = plain_json;
  hook_result = λ trace. exits hook_code;
  restic_result = λ trace. ok (exits restic_code);
  schedule = λ cron_expr. none;
}

run_task_activity_example :
    is_active (run_task (env_of 0 0) (ok home_task) 4 [] new_service).0 4 ≡ is_active new_service 4
run_task_activity_example = run_task_activity (env_of 0 0) (ok home_task) 4 [] new_service 4

pub idle_lem : is_active new_service 4 ≡ false
unfolding is_active lookup
idle_lem = refl

no_pre_hooks : (before (env_of 0 1) home_task 4 [] new_service home_args).1.1 ≡ none
unfolding run_hooks parse_hook_commands trim_space
no_pre_hooks = refl

run_task_backup_failure_example :
    (ran : List Effect) × (((run_task (env_of 0 1) (ok home_task) 4 [] new_service).0.trace
        ≡ ran
          ++ updated_run_times 4 (calculate_next_run (env_of 0 1).schedule [] false)
            ∷ backed_up (env_of 0 1) home_task 4 [] new_service home_args)
      × All IsHook ran)
run_task_backup_failure_example =
    run_task_backup_failure (env_of 0 1) home_task 4 [] new_service home_args (exits 1)
      home_task-args idle_lem no_pre_hooks refl refl

-- The backup command was not run, since its log row could not be inserted.
abbrev unlogged : ExecResult
unlogged = record empty_result { error = some (insert_log_failed (external (codes "locked"))) }

abbrev unlogged_env : Env
unlogged_env = record {
  json = plain_json;
  hook_result = λ trace. exits 0;
  restic_result = λ trace. ok unlogged;
  schedule = λ cron_expr. none;
}

no_unlogged_pre_hooks : (before unlogged_env home_task 4 [] new_service home_args).1.1 ≡ none
unfolding run_hooks parse_hook_commands trim_space
no_unlogged_pre_hooks = refl

run_task_backup_success_example :
    (ran : List Effect) × ((forgot : List Effect) × (((run_task unlogged_env
            (ok home_task)
            4
            []
            new_service).0.trace
          ≡ ran
            ++ queued_core_sync 7
              ∷ marked_stale 7
              ∷ (forgot
                  ++ stored_summary 7 []
                    ∷ updated_run_times 4 (calculate_next_run unlogged_env.schedule [] false)
                    ∷ backed_up unlogged_env home_task 4 [] new_service home_args))
        × (All IsHook ran × All (IsForget 7) forgot)))
run_task_backup_success_example =
    run_task_backup_success unlogged_env home_task 4 [] new_service home_args unlogged
      home_task-args idle_lem no_unlogged_pre_hooks refl refl

-- thread 0 runs task 4
abbrev running_home : Runs task_guard
running_home = record {
  state = (mark_task_active 4 new_service).0;
  running = set_running task_guard (λ i. none) 0 (some 4);
}

home_is_free : (mark_task_active 4 new_service).1 ≡ true
unfolding mark_task_active is_active lookup
home_is_free = refl

running_home-Reach : Reach task_guard running_home
running_home-Reach = Reach.next Reach.start (Step.begins tt 0 4 refl home_is_free)

tasks_run_once_example : ◌≡◌ {A = ℕ} 0 0
tasks_run_once_example = tasks_run_once running_home-Reach 0 0 4 refl refl
