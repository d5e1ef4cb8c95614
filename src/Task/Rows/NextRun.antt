-- ===== src/Task/Rows/NextRun.antt =====
-- When tasks run next, as their rows have it: backend/internal/service/task_service.go.
use auto_restic.Shared.{
  ◌≡◌, ◌⊎◌, refl, ap, ◌∙◌, inl, inr, not, ℕ, suc, nat_eq, Bool, true, false, List, [], ◌∷◌, Option,
  none, some, Text, is_empty, All, Bool-cases,
}
use auto_restic.Exec.{Error, Result, ok, err}
use auto_restic.Fallible.{continue_with, lift}
use auto_restic.Fallible.Triples.{Ends, Triple-bind, Keeps}
use auto_restic.Task.Args.{BackupTask}
use auto_restic.Task.Run.{calculate_next_run}
use auto_restic.Task.Rows.{
  CreateTaskRequest, UpdateTaskRequest, TaskRows, RowsEnv, new_task, changed_task, toggled_task,
  rescheduled, done, found_task, find_task, change_rows, other_tasks, get_task, write_task,
  create_task, update_task, toggle_task, delete_task, or_old, TaskRequest, create_request,
  update_request, toggle_request, delete_request, end_of_run, update_run_times, serve_task,
  serve_tasks,
}

-- A task has a next run only where its cron is enabled and has an expression.
abbrev pub IsScheduled : BackupTask → Type 0
IsScheduled t = (t.next_run_at ≡ none) ⊎ ((t.cron_enabled ≡ true) × (is_empty t.cron_expr ≡ false))

calculated :
    (schedule : Text → Option ℕ) (expr : Text) (enabled : Bool)
    → (calculate_next_run schedule expr enabled ≡ none)
      ⊎ ((enabled ≡ true) × (is_empty expr ≡ false))
unfolding calculate_next_run
calculated schedule expr false = inl refl
calculated schedule [] true = inl refl
calculated schedule (c ∷ expr) true = inr (refl, refl)

changed_task-IsScheduled :
    (schedule : Text → Option ℕ) (r : UpdateTaskRequest) (t : BackupTask)
    → IsScheduled (changed_task schedule r t)
unfolding changed_task rescheduled
changed_task-IsScheduled schedule r t =
    calculated schedule (or_old r.cron_expr t.cron_expr) (or_old r.cron_enabled t.cron_enabled)

toggled_task-IsScheduled :
    (schedule : Text → Option ℕ) (t : BackupTask) → IsScheduled (toggled_task schedule t)
unfolding toggled_task rescheduled
toggled_task-IsScheduled schedule t = calculated schedule t.cron_expr (not t.cron_enabled)

abbrev pub AllScheduled : TaskRows → Type 0
AllScheduled s = All IsScheduled s.rows

change_rows-All :
    (id : ℕ) (f : BackupTask → BackupTask) (ts : List BackupTask)
    → ((t : BackupTask) → IsScheduled t → IsScheduled (f t))
    → All IsScheduled ts
    → All IsScheduled (change_rows id f ts)
unfolding change_rows
change_rows-All id f [] keeps h = tt
change_rows-All id f (t ∷ ts) keeps h = elim (Bool-cases (nat_eq t.id id)) [
  | inl here ↦ rw here (keeps t h.0, change_rows-All id f ts keeps h.1)
  | inr other ↦ rw other (h.0, change_rows-All id f ts keeps h.1)
]

other_tasks-All :
    (id : ℕ) (ts : List BackupTask) → All IsScheduled ts → All IsScheduled (other_tasks id ts)
unfolding other_tasks
other_tasks-All id [] h = tt
other_tasks-All id (t ∷ ts) h = elim (Bool-cases (nat_eq t.id id)) [
  | inl here ↦ rw here (other_tasks-All id ts h.1)
  | inr other ↦ rw other (h.0, other_tasks-All id ts h.1)
]

-- A statement that keeps the rows scheduled, if it does not fail.
statement-Keeps :
    {A : Type 0} (e : Option Error) (f : TaskRows → TaskRows × Result A)
    → ((s : TaskRows) → AllScheduled s → AllScheduled (f s).0)
    → Keeps AllScheduled (λ s. continue_with (λ (b : Bool) s. f s) (lift (done e) s))
statement-Keeps {A = A} e f keeps = record { ends = λ s h. go e s h }
  where
    ended :
        (v : TaskRows × Result A) → AllScheduled v.0 → Ends (λ a s. AllScheduled s) AllScheduled v
    ended (s, ok a) h = h
    ended (s, err x) h = h

    go :
        (e : Option Error) (s : TaskRows)
        → AllScheduled s
        → Ends
            (λ a s. AllScheduled s)
            AllScheduled
            (continue_with (λ (b : Bool) s. f s) (lift (done e) s))
    go none s h = ended (f s) (keeps s h)
    go (some x) s h = h

module _ (env : RowsEnv) where
  get_task-Keeps : (id : ℕ) → Keeps AllScheduled (get_task env id)
  unfolding get_task
  get_task-Keeps id =
      statement-Keeps env.get_error (λ s. (s, found_task (find_task id s.rows))) (λ s h. h)

  write_task-Keeps : (t : BackupTask) → IsScheduled t → Keeps AllScheduled (write_task env t)
  unfolding write_task
  write_task-Keeps t scheduled =
      statement-Keeps env.write_error
        (λ s. (
          record s { rows = change_rows t.id (λ old. record t { repo_id = old.repo_id }) s.rows },
          ok true,
        ))
        (λ s h. change_rows-All t.id _ s.rows (λ old _. scheduled) h)

  create_task-Keeps : (r : CreateTaskRequest) → Keeps AllScheduled (create_task env r)
  unfolding create_task new_task
  create_task-Keeps r =
      statement-Keeps env.write_error
        (λ s. (
          record s { rows = new_task env.schedule r s.next_id ∷ s.rows; next_id = suc s.next_id },
          ok s.next_id,
        ))
        (λ s h. (calculated env.schedule r.cron_expr r.cron_enabled, h))

  update_task-Keeps : (id : ℕ) (r : UpdateTaskRequest) → Keeps AllScheduled (update_task env id r)
  unfolding update_task
  update_task-Keeps id r = Triple-bind (get_task-Keeps id) (λ t.
      write_task-Keeps (changed_task env.schedule r t) (changed_task-IsScheduled env.schedule r t))

  toggle_task-Keeps : (id : ℕ) → Keeps AllScheduled (toggle_task env id)
  unfolding toggle_task
  toggle_task-Keeps id = Triple-bind (get_task-Keeps id) (λ t.
      write_task-Keeps (toggled_task env.schedule t) (toggled_task-IsScheduled env.schedule t))

  delete_task-Keeps : (id : ℕ) → Keeps AllScheduled (delete_task env id)
  unfolding delete_task
  delete_task-Keeps id =
      statement-Keeps env.write_error (λ s. (record s { rows = other_tasks id s.rows }, ok true))
        (λ s h. other_tasks-All id s.rows h)

kept :
    {A : Type 0} (v : TaskRows × Result A)
    → Ends (λ a s. AllScheduled s) AllScheduled v
    → AllScheduled v.0
kept (s, ok a) h = h
kept (s, err e) h = h

-- The task that a run has read has the cron fields of its row.
abbrev pub IsCurrent : BackupTask → List BackupTask → Type 0
IsCurrent t rows =
    All
      (λ (row : BackupTask).
        nat_eq row.id t.id ≡ true
        → (row.cron_expr ≡ t.cron_expr) × (row.cron_enabled ≡ t.cron_enabled))
      rows

module _ (env : RowsEnv) (t : BackupTask) where
  abbrev timed : BackupTask → BackupTask
  timed old = record old {
    next_run_at = calculate_next_run env.schedule t.cron_expr t.cron_enabled;
  }

  timed-IsScheduled :
      (row : BackupTask)
      → row.cron_expr ≡ t.cron_expr
      → row.cron_enabled ≡ t.cron_enabled
      → IsScheduled (timed row)
  timed-IsScheduled row expr enabled = elim (calculated env.schedule t.cron_expr t.cron_enabled) [
    | inl nothing ↦ inl nothing
    | inr (on, given) ↦ inr (enabled ∙ on, ap (λ (e : Text). is_empty e) expr ∙ given)
  ]

  timed-All :
      (rows : List BackupTask)
      → IsCurrent t rows
      → All IsScheduled rows
      → All IsScheduled (change_rows t.id timed rows)
  unfolding change_rows
  timed-All [] current h = tt
  timed-All (row ∷ rows) current h = elim (Bool-cases (nat_eq row.id t.id)) [
    | inl here ↦
        let (expr, enabled) = current.0 here in
        let first = timed-IsScheduled row expr enabled in
        rw here (first, timed-All rows current.1 h.1)
    | inr other ↦ rw other (h.0, timed-All rows current.1 h.1)
  ]

  update_run_times-AllScheduled :
      (s : TaskRows)
      → IsCurrent t s.rows
      → AllScheduled s
      → AllScheduled (update_run_times env t s).0
  unfolding update_run_times
  update_run_times-AllScheduled s current h = go env.write_error
    where
      go :
          (e : Option Error)
          → AllScheduled
              (continue_with
                (λ (written : Bool) s. (record s { rows = change_rows t.id timed s.rows }, ok true))
                (lift (done e) s)).0
      go none = timed-All s.rows current h
      go (some x) = h

-- At the end of a run the task has the cron fields that the run has read.
abbrev pub IsUnchanged : TaskRequest → TaskRows → Type 0
IsUnchanged (end_of_run env t) s = IsCurrent t s.rows
IsUnchanged _ s = Unit

abbrev pub AllUnchanged : List TaskRequest → TaskRows → Type 0
AllUnchanged [] s = Unit
AllUnchanged (r ∷ requests) s = IsUnchanged r s × AllUnchanged requests (serve_task r s)

serve_task-AllScheduled :
    (r : TaskRequest) (s : TaskRows)
    → IsUnchanged r s
    → AllScheduled s
    → AllScheduled (serve_task r s)
unfolding serve_task
serve_task-AllScheduled (create_request env r) s u h =
    kept (create_task env r s) ((create_task-Keeps env r).ends s h)
serve_task-AllScheduled (update_request env id r) s u h =
    kept (update_task env id r s) ((update_task-Keeps env id r).ends s h)
serve_task-AllScheduled (toggle_request env id) s u h =
    kept (toggle_task env id s) ((toggle_task-Keeps env id).ends s h)
serve_task-AllScheduled (delete_request env id) s u h =
    kept (delete_task env id s) ((delete_task-Keeps env id).ends s h)
serve_task-AllScheduled (end_of_run env t) s u h = update_run_times-AllScheduled env t s u h

-- After any requests that create, change, toggle and delete tasks and any ends of runs, at any times
-- and with any outcome of statements, a task has a next run only where its cron is enabled and has
-- an expression, as long as each run ends with the cron fields of its task as it has read them.
pub serve_tasks-AllScheduled :
    (requests : List TaskRequest)
    → AllUnchanged requests (record { rows = []; next_id = 1 })
    → AllScheduled (serve_tasks requests (record { rows = []; next_id = 1 }))
unfolding serve_tasks
serve_tasks-AllScheduled requests unchanged =
    go requests (record { rows = []; next_id = 1 }) unchanged tt
  where
    go :
        (requests : List TaskRequest) (s : TaskRows)
        → AllUnchanged requests s
        → AllScheduled s
        → AllScheduled (serve_tasks requests s)
    go [] s u h = h
    go (r ∷ requests) s u h = go requests (serve_task r s) u.1 (serve_task-AllScheduled r s u.0 h)
