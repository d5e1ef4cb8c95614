-- ===== src/Task/Hooks/Phases.antt =====
-- Which hooks a phase runs.
use auto_restic.Shared.{
  append-nil, ℕ, suc, ◌≡◌, refl, sym, ap, ◌∙◌, subst, List, [], ◌∷◌, ◌++◌, Option, none, some, Text,
  All, append_assoc,
}
use auto_restic.Exec.{ExecResult, Error, empty_result}
use auto_restic.Task.Args.{BackupTask}
use auto_restic.Task.Hooks.{
  run_parsed, stop_at, Effect, ran_hook, Env, hook_label, hook_env, hook_exec_error, run_commands,
  run_hooks, parse_hook_commands,
}

pub data IsHook : Effect → Type 0 where
  hook : {label command : Text} {env : List Text} → IsHook (ran_hook label command env)

All-snoc : (new : List Effect) {e : Effect} → All IsHook new → IsHook e → All IsHook (new ++ e ∷ [])
All-snoc [] h k = (k, tt)
All-snoc (x ∷ new) h k = (h.0, All-snoc new h.1 k)

module _ (env : Env) (task : BackupTask) (trigger phase : Text) where
  -- the trace behind these commands, the first of which has this number
  unfoldable pub hook_effects : ℕ → List Text → List Effect → List Effect
  hook_effects number [] trace = trace
  hook_effects number (command ∷ commands) trace =
      hook_effects (suc number) commands
        (ran_hook (hook_label phase number) command (hook_env task trigger phase) ∷ trace)

  -- The outcome of a phase: the commands up to some point were run, each once, in their order. The
  -- phase has no error only when all were run; with an error, it has the result of the last that was run.
  pub record HooksDone (number : ℕ) (commands : List Text) (trace : List Effect)
      (outcome : List Effect × (ExecResult × Option Error)) : Type 0 where
    pub ran : List Text
    pub left : List Text
    pub in_order : commands ≡ ran ++ left
    pub trace_eq : outcome.0 ≡ hook_effects number ran trace
    pub all_ran : outcome.1.1 ≡ none → left ≡ []
    pub last_failed :
        (e : Error)
        → outcome.1.1 ≡ some e
        → (label : Text) × ((outcome.1.0 ≡ env.hook_result outcome.0)
            × (hook_exec_error label outcome.1.0 ≡ some e))

  HooksDone-stop_at :
      (number : ℕ) (command : Text) (commands : List Text) (trace : List Effect) (v : Option Error)
      (rest : List Effect × (ExecResult × Option Error))
      → let label = hook_label phase number in
        let trace' = ran_hook label command (hook_env task trigger phase) ∷ trace in
        hook_exec_error label (env.hook_result trace') ≡ v
        → HooksDone (suc number) commands trace' rest
        → HooksDone number
            (command ∷ commands)
            trace
            (stop_at v trace' (env.hook_result trace') rest)
  unfolding hook_effects
  HooksDone-stop_at number command commands trace (some e) rest failed done = record {
    ran = command ∷ [];
    left = commands;
    in_order = refl;
    trace_eq = refl;
    all_ran = λ h. cc;
    last_failed = λ e' h. (hook_label phase number, (refl, failed ∙ h));
  }
  HooksDone-stop_at number command commands trace none rest passed done = record {
    ran = command ∷ done.ran;
    left = done.left;
    in_order = ap (λ l. command ∷ l) done.in_order;
    trace_eq = done.trace_eq;
    all_ran = done.all_ran;
    last_failed = done.last_failed;
  }

  run_commands-HooksDone :
      (number : ℕ) (last : ExecResult) (commands : List Text) (trace : List Effect)
      → HooksDone number commands trace
          (run_commands env task trigger phase number last commands trace)
  unfolding run_commands hook_effects
  run_commands-HooksDone number last [] trace = record {
    ran = [];
    left = [];
    in_order = refl;
    trace_eq = refl;
    all_ran = λ e. refl;
    last_failed = λ e h. cc;
  }
  run_commands-HooksDone number last (command ∷ commands) trace =
      HooksDone-stop_at number command commands trace _ _ refl
        (run_commands-HooksDone (suc number) _ commands _)

  run_hooks-HooksDone :
      (raw : Text) (commands : List Text) (trace : List Effect)
      → parse_hook_commands env.json raw ≡ some commands
      → HooksDone 1 commands trace (run_hooks env task trigger phase raw trace)
  unfolding run_hooks run_parsed
  run_hooks-HooksDone raw commands trace parsed =
      subst (λ v. HooksDone 1 commands trace (run_parsed env task trigger phase trace v))
        (sym parsed) (run_commands-HooksDone 1 _ commands trace)

  -- A phase without an error has run all of its hooks, each once, in the order they are given and
  -- numbered from 1, and nothing else.
  pub run_hooks_success :
      (raw : Text) (commands : List Text) (trace : List Effect)
      → parse_hook_commands env.json raw ≡ some commands
      → (run_hooks env task trigger phase raw trace).1.1 ≡ none
      → (run_hooks env task trigger phase raw trace).0 ≡ hook_effects 1 commands trace
  run_hooks_success raw commands trace parsed passed =
      let done = run_hooks-HooksDone raw commands trace parsed in
      done.trace_eq
      ∙ ap (λ ran. hook_effects 1 ran trace)
          (sym (append-nil done.ran)
            ∙ ap (λ left. done.ran ++ left) (sym (done.all_ran passed))
            ∙ sym done.in_order)

  -- A phase with an error, where its hooks parse, has run its hooks up to one that failed, in their order,
  -- and none behind it: it ends with that hook's result and error.
  run_hooks_failure :
      (raw : Text) (commands : List Text) (trace : List Effect) (e : Error)
      → parse_hook_commands env.json raw ≡ some commands
      → (run_hooks env task trigger phase raw trace).1.1 ≡ some e
      → (ran : List Text) × ((left : List Text) × ((label : Text) × ((commands ≡ ran ++ left)
              × (((run_hooks env task trigger phase raw trace).0 ≡ hook_effects 1 ran trace)
                  × (((run_hooks env task trigger phase raw trace).1.0
                        ≡ env.hook_result (run_hooks env task trigger phase raw trace).0)
                      × (hook_exec_error label (run_hooks env task trigger phase raw trace).1.0
                          ≡ some e))))))
  run_hooks_failure raw commands trace e parsed failed =
      let done = run_hooks-HooksDone raw commands trace parsed in
      let (label, (result, error)) = done.last_failed e failed in
      (done.ran, (done.left, (label, (done.in_order, (done.trace_eq, (result, error))))))

  hook_effects-IsHook :
      (number : ℕ) (ran : List Text) (trace : List Effect)
      → (new : List Effect) × ((hook_effects number ran trace ≡ new ++ trace) × All IsHook new)
  unfolding hook_effects
  hook_effects-IsHook number [] trace = ([], (refl, tt))
  hook_effects-IsHook number (command ∷ ran) trace =
      let effect = ran_hook (hook_label phase number) command (hook_env task trigger phase) in
      let (new, (eq, hooks)) = hook_effects-IsHook (suc number) ran (effect ∷ trace) in
      (
        new ++ effect ∷ [],
        (eq ∙ sym (append_assoc new (effect ∷ []) trace), All-snoc new hooks hook),
      )

  -- What a phase does, hooks that do not parse included, is to run hooks.
  pub run_hooks-IsHook :
      (raw : Text) (trace : List Effect)
      → (new : List Effect) × (((run_hooks env task trigger phase raw trace).0 ≡ new ++ trace)
          × All IsHook new)
  unfolding run_hooks run_parsed
  run_hooks-IsHook raw trace = go (parse_hook_commands env.json raw)
    where
      go :
          (v : Option (List Text))
          → (new : List Effect) × (((run_parsed env task trigger phase trace v).0 ≡ new ++ trace)
              × All IsHook new)
      go none = ([], (refl, tt))
      go (some commands) =
          let done = run_commands-HooksDone 1 empty_result commands trace in
          let (new, (eq, hooks)) = hook_effects-IsHook 1 done.ran trace in
          (new, (done.trace_eq ∙ eq, hooks))
