-- ===== src/Repo/Maintenance/Async.antt =====
-- A check that runs beside the request that asks for it: CheckRepoAsync and runRepoCommandAsync of
-- backend/internal/service/repo_service.go. The repository is reserved before.
use auto_restic.Shared.{◌≡◌, ◌⊎◌, subst, refl, inl, inr, ℕ, Option, none, some, Text, codes}
use auto_restic.Exec.{Error, external, Result, ok, err, ExecResult}
use auto_restic.Repo.Maintenance.{CheckNote, running_note, failed_note, record_check_result}

-- where the request and the goroutine are
pub data Caller : Type 0 where
  selecting : Caller
  answered : Result ℕ → Caller

pub data Worker : Type 0 where
  at_work : Worker
  through : ExecResult → Option Error → Worker

-- `started` and `start_err` are the buffered channels, `check` the row of the check.
pub record AsyncCheck : Type 0 where
  pub caller : Caller
  pub worker : Worker
  pub started : Option ℕ
  pub start_err : Option Error
  pub check : CheckNote

abbrev pub not_in_time : Error
not_in_time = external (codes "repository command did not start in time")

-- behind the first note and the start of the goroutine
abbrev pub asked : AsyncCheck
asked = record {
  caller = selecting;
  worker = at_work;
  started = none;
  start_err = none;
  check = running_note none;
}

module _ (error_text : Error → Text) where
  -- what the request writes
  abbrev pub noted : Result ℕ → CheckNote
  noted (ok log_id) = running_note (some log_id)
  noted (err e) = failed_note (error_text e)

  abbrev pub answer : Result ℕ → AsyncCheck → AsyncCheck
  answer v s = record s { caller = answered v; check = noted v }

  abbrev pub result_note : ExecResult → Option Error → CheckNote
  unfolding record_check_result
  result_note result e = record_check_result error_text e result.exit_code result.log_id

  -- One step of either.
  pub data Step : AsyncCheck → AsyncCheck → Type 0 where
    -- the executor tells its log
    starts :
        (s : AsyncCheck) (log_id : ℕ)
        → s.worker ≡ at_work
        → s.started ≡ none
        → Step s (record s { started = some log_id })
    -- onDone, and the error that is sent behind it
    ends :
        (s : AsyncCheck) (result : ExecResult) (e : Option Error)
        → s.worker ≡ at_work
        → Step s
            (record s { worker = through result e; start_err = e; check = result_note result e })
    hears_start :
        (s : AsyncCheck) (log_id : ℕ)
        → s.caller ≡ selecting
        → s.started ≡ some log_id
        → Step s (answer (ok log_id) s)
    hears_error :
        (s : AsyncCheck) (e : Error)
        → s.caller ≡ selecting
        → s.start_err ≡ some e
        → Step s (answer (err e) s)
    gives_up : (s : AsyncCheck) → s.caller ≡ selecting → Step s (answer (err not_in_time) s)

  pub data Reach : AsyncCheck → Type 0 where
    start : Reach asked
    next : {s t : AsyncCheck} → Reach s → Step s t → Reach t

  -- When both are through, the check is noted as the one that was last has it.
  IsNoted : AsyncCheck → Caller → Worker → Type 0
  IsNoted s (answered v) (through result e) = (s.check ≡ noted v) ⊎ (s.check ≡ result_note result e)
  IsNoted s (answered v) at_work = s.check ≡ noted v
  IsNoted s selecting (through result e) = s.check ≡ result_note result e
  IsNoted s selecting at_work = s.check ≡ running_note none

  answer-IsNoted :
      (s : AsyncCheck) (v : Result ℕ) (w : Worker) → IsNoted (answer v s) (answered v) w
  unfolding IsNoted
  answer-IsNoted s v (through result e) = inl refl
  answer-IsNoted s v at_work = refl

  ends-IsNoted :
      (s : AsyncCheck) (c : Caller) (result : ExecResult) (e : Option Error)
      → IsNoted
          (record s { worker = through result e; start_err = e; check = result_note result e })
          c
          (through result e)
  unfolding IsNoted
  ends-IsNoted s (answered v) result e = inr refl
  ends-IsNoted s selecting result e = refl

  starts-IsNoted :
      (s : AsyncCheck) (log_id : ℕ) (c : Caller) (w : Worker)
      → IsNoted s c w
      → IsNoted (record s { started = some log_id }) c w
  unfolding IsNoted
  starts-IsNoted s log_id (answered v) (through result e) h = h
  starts-IsNoted s log_id (answered v) at_work h = h
  starts-IsNoted s log_id selecting (through result e) h = h
  starts-IsNoted s log_id selecting at_work h = h

  Step-IsNoted :
      {s t : AsyncCheck} → Step s t → IsNoted s s.caller s.worker → IsNoted t t.caller t.worker
  Step-IsNoted (starts s log_id w e) h = starts-IsNoted s log_id s.caller s.worker h
  Step-IsNoted (ends s result e w) h = ends-IsNoted s s.caller result e
  Step-IsNoted (hears_start s log_id c e) h = answer-IsNoted s (ok log_id) s.worker
  Step-IsNoted (hears_error s x c e) h = answer-IsNoted s (err x) s.worker
  Step-IsNoted (gives_up s c) h = answer-IsNoted s (err not_in_time) s.worker

  Reach-IsNoted : {s : AsyncCheck} → Reach s → IsNoted s s.caller s.worker
  unfolding IsNoted
  Reach-IsNoted start = refl
  Reach-IsNoted (next r st) = Step-IsNoted st (Reach-IsNoted r)

  -- Whatever the order in which the request and the goroutine go on, when both are through the check
  -- is noted as one of them has it.
  pub Reach_noted :
      {s : AsyncCheck}
      → Reach s
      → (v : Result ℕ) (result : ExecResult) (e : Option Error) → s.caller ≡ answered v
      → s.worker ≡ through result e
      → (s.check ≡ noted v) ⊎ (s.check ≡ result_note result e)
  unfolding IsNoted
  Reach_noted {s} reach v result e c w =
      subst (IsNoted s (answered v)) w (subst (λ c. IsNoted s c s.worker) c (Reach-IsNoted reach))

  -- What the request and the goroutine may still do.
  pub data Later (s : AsyncCheck) : AsyncCheck → Type 0 where
    now : Later s s
    then_later : {t u : AsyncCheck} → Later s t → Step t u → Later s u
