-- ===== src/Examples/ExecutorRuns.antt =====
-- A command that ends while one of its pipes fails: Run of backend/internal/executor/executor.go.
use auto_restic.Shared.{◌≡◌, refl, true, false, [], ◌∷◌, ◌++◌, none, List, Text, codes}
use auto_restic.Exec.{Error, external, ok}
use auto_restic.Output.Streams.{stdout, event}
use auto_restic.Executor.{
  Course, exited_well, inserted_log, registered_cancel, finished_log, unregistered_cancel,
  LogStatus, RunEffect, run_command,
}
use auto_restic.Executor.Logged.{Agrees, run_command_logged}

-- A command that exits with 0 after its stderr could not be read to the end.
abbrev broken_pipe : Course
broken_pipe = record {
  inserted = ok 12;
  blocked = none;
  system_query = false;
  has_started = true;
  has_hub = true;
  events = event stdout (codes "done", true) ∷ [];
  wait = exited_well;
  was_cancelled = false;
  pipe_errors = (codes "stderr", external (codes "broken")) ∷ [];
}

abbrev error_text : Error → Text
error_text e = codes "pipe"

run_command_logged_example :
    (before : List RunEffect) × ((stdout : Text) × ((stderr : Text) × ((combined : Text)
          × ((status : LogStatus) × (((run_command error_text broken_pipe).0
                  ≡ inserted_log 12
                    ∷ registered_cancel 12
                    ∷ ((before
                          ++ finished_log 12 stdout stderr combined
                              (run_command error_text broken_pipe).1.exit_code
                              status
                            ∷ [])
                        ++ unregistered_cancel 12 ∷ []))
                × Agrees status
                    (run_command error_text broken_pipe).1.exit_code
                    (run_command error_text broken_pipe).1.error)))))
run_command_logged_example = run_command_logged error_text broken_pipe 12 refl tt
