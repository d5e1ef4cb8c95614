-- ===== src/Examples/HookRuns.antt =====
-- Hooks that pass: backend/internal/service/task_service.go.
use auto_restic.Shared.{◌≡◌, refl, [], ◌∷◌, none, some, Text, codes, text_eq, trim_space}
use auto_restic.Task.Hooks.{run_commands, run_hooks, parse_hook_commands, hook_exec_error}
use auto_restic.Task.Hooks.Phases.{hook_effects, run_hooks_success}
use auto_restic.Examples.TaskRuns.{home_task, env_of, plain_json}

abbrev sync_hook : Text
sync_hook = codes "sync"

sync_hook_lem : parse_hook_commands plain_json sync_hook ≡ some (sync_hook ∷ [])
unfolding parse_hook_commands trim_space text_eq
sync_hook_lem = refl

sync_passes : (run_hooks (env_of 0 0) home_task [] (codes "pre") sync_hook []).1.1 ≡ none
unfolding run_hooks run_commands parse_hook_commands trim_space text_eq hook_exec_error
sync_passes = refl

run_hooks_success_example :
    (run_hooks (env_of 0 0) home_task [] (codes "pre") sync_hook []).0
    ≡ hook_effects (env_of 0 0) home_task [] (codes "pre") 1 (sync_hook ∷ []) []
run_hooks_success_example =
    run_hooks_success (env_of 0 0) home_task [] (codes "pre") sync_hook (sync_hook ∷ []) []
      sync_hook_lem sync_passes
