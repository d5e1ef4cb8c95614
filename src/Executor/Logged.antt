-- ===== src/Executor/Logged.antt =====
-- The log row of a command and its result: Run of backend/internal/executor/executor.go.
use auto_restic.Shared.{
  zero, suc, subst, ℕ, ℤ, pos, negsuc, is_zero, ◌≡◌, refl, sym, ap, Bool, true, false, List, [],
  ◌∷◌, ◌++◌, Option, none, some, Text, if◌then◌else◌,
}
use auto_restic.Exec.{Error, ok, ExecResult}
use auto_restic.Executor.{
  sent, LogStatus, succeeded, failed, cancelled, Course, Wait, exited_well, exited, wait_failed,
  RunEffect, inserted_log, registered_cancel, unregistered_cancel, finished_log, run_command,
  run_command_of, run_logged, run_started, minus_one, ended, with_pipe_error, join_pipe_errors,
}

-- a log row says success exactly where the result has exit code zero and no error
abbrev pub Agrees : LogStatus → ℤ → Option Error → Type 0
Agrees succeeded code error = (is_zero code ≡ true) × (error ≡ none)
Agrees failed code error = is_zero code ≡ false
Agrees cancelled code error = is_zero code ≡ false

-- An exit error has another code than zero.
abbrev pub IsExit : Wait → Type 0
IsExit exited_well = Unit
IsExit (exited code) = is_zero code ≡ false
IsExit wait_failed = Unit

-- What the log and the result of a command are.
pub record IsLogged (log_id : ℕ) (outcome : List RunEffect × ExecResult) : Type 0 where
  pub before : List RunEffect
  pub stdout : Text
  pub stderr : Text
  pub combined : Text
  pub status : LogStatus
  pub effects_eq :
      outcome.0
      ≡ before ++ finished_log log_id stdout stderr combined outcome.1.exit_code status ∷ []
  pub agrees : Agrees status outcome.1.exit_code outcome.1.error
  pub same_log : outcome.1.log_id ≡ log_id

ended-Agrees :
    (w : Wait) (was_cancelled : Bool)
    → IsExit w
    → Agrees (ended w was_cancelled).1 (ended w was_cancelled).0 none
ended-Agrees exited_well was_cancelled h = (refl, refl)
ended-Agrees (exited code) true h = refl
ended-Agrees (exited code) false h = h
ended-Agrees wait_failed true h = refl
ended-Agrees wait_failed false h = refl

with_pipe_error-Agrees :
    (e : Option Error) (end : ℤ × LogStatus)
    → Agrees end.1 end.0 none
    → Agrees (with_pipe_error e end).1 (with_pipe_error e end).0 e
with_pipe_error-Agrees none end h = h
with_pipe_error-Agrees (some e) (code, status) h = nonzero code
  where
    nonzero : (code : ℤ) → is_zero (if is_zero code then minus_one else code) ≡ false
    nonzero (pos zero) = refl
    nonzero (pos (suc n)) = refl
    nonzero (negsuc n) = refl

run_logged-IsLogged :
    (text_of : Error → Text) (log_id : ℕ) (c : Course) (blocked : Option Error)
    → IsExit c.wait
    → IsLogged log_id (run_logged text_of log_id c blocked)
unfolding run_logged run_started
run_logged-IsLogged text_of log_id c (some e) h = record {
  before = [];
  stdout = [];
  stderr = [];
  combined = [];
  status = failed;
  effects_eq = refl;
  agrees = refl;
  same_log = refl;
}
run_logged-IsLogged text_of log_id c none h =
    let pipe_error = join_pipe_errors none c.pipe_errors in
    let end = with_pipe_error pipe_error (ended c.wait c.was_cancelled) in
    record {
      before = sent log_id c end.0;
      stdout = _;
      stderr = _;
      combined = _;
      status = end.1;
      effects_eq = refl;
      agrees = with_pipe_error-Agrees pipe_error _ (ended-Agrees c.wait c.was_cancelled h);
      same_log = refl;
    }

-- Every command whose log row is inserted has the row finished, as the last thing before its
-- cancellation is unregistered, whatever fails in between: with the exit code of its result, and
-- as a success only where the result has exit code zero and no error.
pub run_command_logged :
    (text_of : Error → Text) (c : Course) (log_id : ℕ)
    → c.inserted ≡ ok log_id
    → IsExit c.wait
    → (before : List RunEffect) × ((stdout : Text) × ((stderr : Text) × ((combined : Text)
            × ((status : LogStatus) × (((run_command text_of c).0
                    ≡ inserted_log log_id
                      ∷ registered_cancel log_id
                      ∷ ((before
                            ++ finished_log log_id stdout stderr combined
                                (run_command text_of c).1.exit_code
                                status
                              ∷ [])
                          ++ unregistered_cancel log_id ∷ []))
                  × Agrees status
                      (run_command text_of c).1.exit_code
                      (run_command text_of c).1.error)))))
unfolding run_command run_command_of
run_command_logged text_of c log_id logged h =
    let l = run_logged-IsLogged text_of log_id c c.blocked h in
    let eq : run_command text_of c ≡ run_command_of text_of c (ok log_id) =
      ap (run_command_of text_of c) logged in
    subst
      (λ outcome.
        (before : List RunEffect) × ((stdout : Text) × ((stderr : Text) × ((combined : Text)
              × ((status : LogStatus) × ((outcome.0
                      ≡ inserted_log log_id
                        ∷ registered_cancel log_id
                        ∷ ((before
                              ++ finished_log log_id stdout stderr combined outcome.1.exit_code
                                  status
                                ∷ [])
                            ++ unregistered_cancel log_id ∷ []))
                    × Agrees status outcome.1.exit_code outcome.1.error))))))
      (sym eq)
      (
        l.before,
        (
          l.stdout,
          (
            l.stderr,
            (
              l.combined,
              (
                l.status,
                (
                  ap
                      (λ es.
                        inserted_log log_id
                        ∷ registered_cancel log_id
                        ∷ (es ++ unregistered_cancel log_id ∷ []))
                      l.effects_eq,
                  l.agrees,
                ),
              ),
            ),
          ),
        ),
      )
