-- ===== src/Executor.antt =====
-- A command from its log row to its result: Run of backend/internal/executor/executor.go.
pub mod Logged
use auto_restic.Shared.{
  ℕ, ℤ, pos, negsuc, is_zero, Bool, true, false, not, ◌&&◌, List, [], ◌∷◌, ◌++◌, Option, none, some,
  Text, if◌then◌else◌,
}
use auto_restic.Output.Buffer.{buffer_string}
use auto_restic.Output.Streams.{
  result, CommandOutputBuffers, new_command_output_buffers, append_pipe_error, OutputEvent,
  record_all, stream_name,
}
use auto_restic.Exec.{
  Error, insert_log_failed, pipe_read_failed, joined, Result, ok, err, ExecResult, empty_result,
}

-- the status of a log row that is finished
pub data LogStatus : Type 0 where
  succeeded failed cancelled : LogStatus

-- what cmd.Wait returns: nil, an exit error with its code, or another error
pub data Wait : Type 0 where
  exited_well : Wait
  exited : ℤ → Wait
  wait_failed : Wait

-- What happens to a command. `blocked` is the error of a pipe or of the start, if there is one;
-- `events` are the lines in the order in which they reach the buffers; `has_started` and `has_hub`
-- say whether the request has a Started channel and a hub.
pub record Course : Type 0 where
  pub inserted : Result ℕ
  pub blocked : Option Error
  pub system_query : Bool
  pub has_started : Bool
  pub has_hub : Bool
  pub events : List OutputEvent
  pub wait : Wait
  pub was_cancelled : Bool
  pub pipe_errors : List (Text × Error)

pub data RunEffect : Type 0 where
  inserted_log registered_cancel announced unregistered_cancel : (log_id : ℕ) → RunEffect
  sent_output : (log_id : ℕ) → OutputEvent → RunEffect
  sent_complete : (log_id : ℕ) → (exit_code : ℤ) → RunEffect
  finished_log :
      (log_id : ℕ) → (stdout stderr combined : Text) → (exit_code : ℤ) → LogStatus → RunEffect

abbrev pub minus_one : ℤ
minus_one = negsuc 0

-- behind cmd.Wait
abbrev pub ended : Wait → Bool → ℤ × LogStatus
ended exited_well was_cancelled = (pos 0, succeeded)
ended (exited code) was_cancelled = if was_cancelled then (minus_one, cancelled) else (code, failed)
ended wait_failed was_cancelled =
    if was_cancelled then (minus_one, cancelled) else (minus_one, failed)

abbrev pub join_pipe_errors : Option Error → List (Text × Error) → Option Error
join_pipe_errors found [] = found
join_pipe_errors none ((stream, e) ∷ errors) =
    join_pipe_errors (some (pipe_read_failed stream e)) errors
join_pipe_errors (some found) ((stream, e) ∷ errors) =
    join_pipe_errors (some (joined found (pipe_read_failed stream e))) errors

-- the exit code and the status where a pipe failed
abbrev pub with_pipe_error : Option Error → ℤ × LogStatus → ℤ × LogStatus
with_pipe_error none (code, status) = (code, status)
with_pipe_error (some e) (code, status) = (if is_zero code then minus_one else code, failed)

abbrev pub final_buffers :
    (Error → Text) → Option Error → CommandOutputBuffers → CommandOutputBuffers
final_buffers text_of none b = b
final_buffers text_of (some e) b = append_pipe_error b (text_of e)

abbrev pub sent_outputs : ℕ → List OutputEvent → List RunEffect
sent_outputs log_id [] = []
sent_outputs log_id (e ∷ es) = sent_output log_id e ∷ sent_outputs log_id es

-- what a command that started sends, on the Started channel and to the hub
abbrev pub sent : ℕ → Course → ℤ → List RunEffect
sent log_id c code =
    (if c.has_started then announced log_id ∷ [] else [])
    ++ (if c.has_hub then sent_outputs log_id c.events ++ (sent_complete log_id code ∷ []) else [])

-- `text_of` is Error() of an error
module _ (text_of : Error → Text) where
  -- a command that started, up to its log
  unfoldable pub run_started : ℕ → Course → List RunEffect × ExecResult
  run_started log_id c =
      let pipe_error = join_pipe_errors none c.pipe_errors in
      let (code, status) = with_pipe_error pipe_error (ended c.wait c.was_cancelled) in
      let read = record_all (new_command_output_buffers (not c.system_query)) c.events in
      let b = final_buffers text_of pipe_error read in
      let (stdout, stderr, combined) = result b in
      (
        sent log_id c code
            ++ (finished_log log_id (buffer_string b.stdout_log) (buffer_string b.stderr_log)
                  (buffer_string b.combined_log) code status
                ∷ []),
        record {
          log_id = log_id;
          exit_code = code;
          stdout = stdout;
          stderr = stderr;
          combined_output = combined;
          error = pipe_error;
        },
      )

  unfoldable pub run_logged : ℕ → Course → Option Error → List RunEffect × ExecResult
  unfolding run_started
  run_logged log_id c (some e) = (
    finished_log log_id [] [] [] minus_one failed ∷ [],
    record empty_result { log_id = log_id; exit_code = minus_one; error = some e },
  )
  run_logged log_id c none = run_started log_id c

  -- Run; what is deferred stands at the end
  unfoldable pub run_command_of : Course → Result ℕ → List RunEffect × ExecResult
  unfolding run_logged
  run_command_of c (err e) = ([], record empty_result { error = some (insert_log_failed e) })
  run_command_of c (ok log_id) =
      let (effects, outcome) = run_logged log_id c c.blocked in
      (
        inserted_log log_id
            ∷ registered_cancel log_id
            ∷ (effects ++ unregistered_cancel log_id ∷ []),
        outcome,
      )

  unfoldable pub run_command : Course → List RunEffect × ExecResult
  unfolding run_command_of
  run_command c = run_command_of c c.inserted
