-- ===== src/Task/Guarded.antt =====
-- The tasks that run at once: markTaskActive and clearTaskActive of
-- backend/internal/service/task_service.go, as RunTask and RunTaskAsync use them.
use auto_restic.Shared.{
  nat_eq_iff, ℕ, ◌≡◌, refl, true, false, not, ◌&&◌, ◌||◌, [], some, nat_eq, lookup, lookup-insert,
  lookup-erase, Eq-ℕ, arith,
}
use auto_restic.Guard.{Guard, Runs, Reach, Reach-IsGuarded}
use auto_restic.Task.Run.{Service, is_active, mark_task_active, clear_task_active}

-- the service before anything ran
abbrev pub new_service : Service
new_service = record { active_tasks = []; trace = [] }

pub mark_says_lem : (k : ℕ) (s : Service) → (mark_task_active k s).1 ≡ not (is_active s k)
unfolding mark_task_active
mark_says_lem k s = ground arith

pub mark_marks_lem :
    (k j : ℕ) (s : Service) → is_active (mark_task_active k s).0 j ≡ nat_eq k j || is_active s j
unfolding mark_task_active is_active
mark_marks_lem k j s = ground (arith, lookup-insert k j true s.active_tasks, nat_eq_iff k j)

pub clear_clears_lem :
    (k j : ℕ) (s : Service)
    → is_active (clear_task_active k s) j ≡ not (nat_eq k j) && is_active s j
unfolding clear_task_active is_active
clear_clears_lem k j s = ground (arith, lookup-erase k j s.active_tasks)

pub nothing_active : (k : ℕ) → is_active new_service k ≡ false
unfolding is_active lookup
nothing_active k = refl

-- the guard of the tasks
abbrev pub task_guard : Guard
task_guard = record {
  State = Service;
  Label = Unit {0};
  initial = new_service;
  marked = is_active;
  mark = λ l. mark_task_active;
  clear = clear_task_active;
  nothing_marked = nothing_active;
  mark_says = λ l. mark_says_lem;
  mark_marks = λ l. mark_marks_lem;
  clear_clears = clear_clears_lem;
}

-- However runs of tasks are started, by hand, by the API or by the schedule, no two runs of a task go
-- on at once.
pub tasks_run_once :
    {r : Runs task_guard} (reach : Reach task_guard r) (i j k : ℕ)
    → r.running i ≡ some k
    → r.running j ≡ some k
    → i ≡ j
tasks_run_once reach i j k runs runs' = (Reach-IsGuarded task_guard reach).one_run i j k runs runs'

-- A task that is marked as active is being run: no mark is left behind that would keep the task from
-- running again.
pub active_task_runs :
    {r : Runs task_guard} (reach : Reach task_guard r) (k : ℕ)
    → task_guard.marked r.state k ≡ true
    → (i : ℕ) × (r.running i ≡ some k)
active_task_runs reach k active = (Reach-IsGuarded task_guard reach).marked_runs k active
