-- ===== src/Task/Hooks.antt =====
-- Hooks: parseHookCommands, runHooks, hookExecError and mergeHookFailure of
-- backend/internal/service/task_service.go. What a run does outside of the service is a trace of
-- effects, the newest first; what comes back from outside may depend on all of it.
pub mod Phases
pub mod Merge
use auto_restic.Shared.{
  ℕ, suc, ◌+◌, ℤ, pos, Bool, not, List, [], ◌∷◌, ◌++◌, Option, none, some, Text, codes, is_empty,
  trim_space, if◌then◌else◌, is_zero,
}
use auto_restic.Output.Marker.{decimal, end_line}
use auto_restic.Exec.{
  Error, parse_error, hook_failed, hook_failed_output, hook_failed_code, joined, Result, ok, err,
  ExecResult, empty_result, Json,
}
use auto_restic.Task.Args.{BackupTask}

pub data Effect : Type 0 where
  -- executor.Run of a shell command, under its label and with its environment
  ran_hook : (label command : Text) → (env : List Text) → Effect
  -- RunTaskResticCommand or RunResticCommand
  ran_restic : (repo : ℕ) → (task : Option ℕ) → (trigger : Text) → (args : List Text) → Effect
  -- TaskStore.UpdateRunTimes with the time of the next run
  updated_run_times : (task : ℕ) → (next : Option ℕ) → Effect
  -- StoreBackupSummary, MarkStale (core, stats, files) and QueueCoreSync of the cache
  stored_summary : (repo : ℕ) → (output : Text) → Effect
  marked_stale queued_core_sync : (repo : ℕ) → Effect

-- What comes from outside: the results of the commands that stand at the front of a trace, and the
-- time at which a cron expression falls due next, if it is one.
pub record Env : Type 1 where
  pub json : Json
  pub hook_result : List Effect → ExecResult
  pub restic_result : List Effect → Result ExecResult
  pub schedule : Text → Option ℕ

non_empty_commands : List Text → List Text
non_empty_commands [] = []
non_empty_commands (hook ∷ hooks) =
    let rest = non_empty_commands hooks in
    let trimmed = trim_space hook in if is_empty trimmed then rest else trimmed ∷ rest

unfoldable pub parse_hook_commands : Json → Text → Option (List Text)
unfolding non_empty_commands
parse_hook_commands j raw =
    if is_empty (trim_space raw)
    then some []
    else elim (j.strings raw) [ none ↦ none | some hooks ↦ some (non_empty_commands hooks) ]

-- the trimmed stderr, or the trimmed stdout where it is empty
unfoldable pub hook_message : ExecResult → Text
hook_message result =
    let message = trim_space result.stderr in
    if is_empty message then trim_space result.stdout else message

unfoldable pub hook_exec_error : Text → ExecResult → Option Error
unfolding hook_message
hook_exec_error label result = elim (result.error) [
  | some e ↦ some (hook_failed label e)
  | none ↦
      if is_zero result.exit_code
      then none
      else if is_empty (hook_message result)
      then some (hook_failed_code label result.exit_code)
      else some (hook_failed_output label (hook_message result))
]

pub hook_label : Text → ℕ → Text
hook_label phase number = phase ++ (codes "-hook #" ++ decimal number)

pub hook_env : BackupTask → Text → Text → List Text
hook_env task trigger phase =
    (codes "AUTORESTIC_HOOK_PHASE=" ++ phase)
    ∷ (codes "AUTORESTIC_TASK_ID=" ++ decimal task.id)
    ∷ (codes "AUTORESTIC_REPO_ID=" ++ decimal task.repo_id)
    ∷ (codes "AUTORESTIC_TRIGGER=" ++ trigger)
    ∷ []

-- The outcome of the commands from one on: of that one if it failed.
abbrev pub stop_at :
    Option Error
    → List Effect
    → ExecResult
    → List Effect × (ExecResult × Option Error)
    → List Effect × (ExecResult × Option Error)
stop_at (some e) trace result rest = (trace, (result, some e))
stop_at none trace result rest = rest

module _ (env : Env) (task : BackupTask) (trigger phase : Text) where
  -- the loop over the commands, from the command with this number on
  unfoldable pub run_commands :
      ℕ → ExecResult → List Text → List Effect → List Effect × (ExecResult × Option Error)
  run_commands number last [] trace = (trace, (last, none))
  run_commands number last (hook ∷ hooks) trace =
      let label = hook_label phase number in
      let trace' = ran_hook label hook (hook_env task trigger phase) ∷ trace in
      let result = env.hook_result trace' in
      stop_at (hook_exec_error label result) trace' result
        (run_commands (suc number) result hooks trace')

  run_parsed : List Effect → Option (List Text) → List Effect × (ExecResult × Option Error)
  unfolding run_commands
  run_parsed trace none = (trace, (empty_result, some (parse_error phase)))
  run_parsed trace (some hooks) = run_commands 1 empty_result hooks trace

  unfoldable pub run_hooks : Text → List Effect → List Effect × (ExecResult × Option Error)
  unfolding run_parsed
  run_hooks raw trace = run_parsed trace (parse_hook_commands env.json raw)

-- the exit code of a hook that failed, which is never zero
abbrev pub failure_code : ℤ → ℤ
failure_code code = if is_zero code then pos 1 else code

abbrev pub join_errors : Option Error → Error → Error
join_errors none e = e
join_errors (some e') e = joined e' e

-- text behind output that it starts on a line of its own
abbrev pub append_output : Text → Text → Text
append_output output text = if is_empty text then output else end_line output ++ text

unfoldable pub merge_hook_failure : ExecResult → ExecResult → Option Error → ExecResult
merge_hook_failure result hook_result none = result
merge_hook_failure result hook_result (some hook_err) = record result {
  exit_code =
      if is_zero result.exit_code then failure_code hook_result.exit_code else result.exit_code;
  error = some (join_errors result.error hook_err);
  stderr = append_output result.stderr hook_result.stderr;
  combined_output = append_output result.combined_output hook_result.stdout;
}
