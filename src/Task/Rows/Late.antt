-- ===== src/Task/Rows/Late.antt =====
-- A task that is toggled while it runs: backend/internal/service/task_service.go.
use auto_restic.Shared.{
  ◌≡◌, refl, ap, ◌∙◌, inl, inr, not, ℕ, nat_eq, nat_eq_iff, true, false, List, [], ◌∷◌, none, some,
  Bool-cases,
}
use auto_restic.Task.Args.{BackupTask}
use auto_restic.Task.Run.{calculate_next_run}
use auto_restic.Task.Rows.{
  TaskRows, RowsEnv, toggled_task, rescheduled, find_task, change_rows, get_task, write_task,
  toggle_task, update_run_times,
}

same_task : {t u : BackupTask} → some t ≡ some u → t ≡ u
same_task h = cc

find-change_rows :
    (id : ℕ) (f : BackupTask → BackupTask) (ts : List BackupTask) (t : BackupTask)
    → ((u : BackupTask) → nat_eq u.id id ≡ true → nat_eq (f u).id id ≡ true)
    → find_task id ts ≡ some t
    → find_task id (change_rows id f ts) ≡ some (f t)
unfolding find_task change_rows
find-change_rows id f [] t same h = cc
find-change_rows id f (u ∷ ts) t same h = elim (Bool-cases (nat_eq u.id id)) [
  | inl here ↦ rw (here, same u here) (ap (λ x. some (f x)) (same_task (rw here at h)))
  | inr other ↦ rw (other, other) (find-change_rows id f ts t same (rw other at h))
]

toggle_rows :
    (env : RowsEnv) (s : TaskRows) (t : BackupTask)
    → env.get_error ≡ none
    → env.write_error ≡ none
    → find_task t.id s.rows ≡ some t
    → (toggle_task env t.id s).0.rows
      ≡ change_rows t.id
          (λ old. record (toggled_task env.schedule t) { repo_id = old.repo_id })
          s.rows
unfolding toggle_task get_task write_task toggled_task rescheduled
toggle_rows env s t no_get no_write found = rw (no_get, found, no_write) refl

run_times_rows :
    (env : RowsEnv) (s : TaskRows) (t : BackupTask)
    → env.write_error ≡ none
    → (update_run_times env t s).0.rows
      ≡ change_rows t.id
          (λ old. record old {
            next_run_at = calculate_next_run env.schedule t.cron_expr t.cron_enabled;
          })
          s.rows
unfolding update_run_times
run_times_rows env s t no_write = rw no_write refl

-- A task that is disabled while it runs has a next run again when its run ends.
pub toggled_while_running :
    (env : RowsEnv) (s : TaskRows) (t : BackupTask) (next : ℕ)
    → env.get_error ≡ none
    → env.write_error ≡ none
    → find_task t.id s.rows ≡ some t
    → t.cron_enabled ≡ true
    → calculate_next_run env.schedule t.cron_expr true ≡ some next
    → (row : BackupTask) × ((find_task t.id
            (update_run_times env t (toggle_task env t.id s).0).0.rows
          ≡ some row)
        × ((row.cron_enabled ≡ false) × (row.next_run_at ≡ some next)))
unfolding toggled_task rescheduled
toggled_while_running env s t next no_get no_write found enabled fires =
    let ends : BackupTask → BackupTask = λ old. record old {
      next_run_at = calculate_next_run env.schedule t.cron_expr t.cron_enabled;
    } in
    let toggles : BackupTask → BackupTask =
      λ old. record (toggled_task env.schedule t) { repo_id = old.repo_id } in
    let s' = (toggle_task env t.id s).0 in
    (
      ends (toggles t),
      (
        ap (find_task t.id) (run_times_rows env s' t no_write)
            ∙ find-change_rows t.id ends s'.rows (toggles t) (λ old e. e)
                (ap (find_task t.id) (toggle_rows env s t no_get no_write found)
                  ∙ find-change_rows t.id toggles s.rows t (λ old e. (nat_eq_iff t.id t.id).1 refl)
                      found),
        (ap not enabled, ap (calculate_next_run env.schedule t.cron_expr) enabled ∙ fires),
      ),
    )
