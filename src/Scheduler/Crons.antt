-- ===== src/Scheduler/Crons.antt =====
-- The crons of the scheduler: Start, Stop, scheduleTask, scheduleRepoMaintenance, reloadTasks and
-- swapCron of backend/internal/scheduler/scheduler.go. A reload runs beside Start and Stop, in the
-- parts between which they can happen.
use auto_restic.Shared.{
  ℕ, suc, Bool, true, false, not, ◌&&◌, List, [], ◌∷◌, ◌++◌, Text, nat_eq, is_empty, if◌then◌else◌,
}
use auto_restic.Exec.{Result, ok, err}
use auto_restic.Task.Args.{BackupTask}

-- what the scheduler reads of a repository
pub record Repository : Type 0 where
  pub id : ℕ
  pub prune_enabled : Bool
  pub prune_cron_expr : Text
  pub check_enabled : Bool
  pub check_cron_expr : Text

pub data Job : Type 0 where
  task_job prune_job check_job : (id : ℕ) → (cron_expr : Text) → Job

-- cron.Cron; `started` is that its jobs are run when they fall due
pub record Cron : Type 0 where
  pub jobs : List Job
  pub started : Bool

-- Where a reload is: behind swapCron, behind the scheduling, behind nextCron.Start.
pub data Reload : Type 0 where
  off : Reload
  swapped : (next prev : ℕ) → List BackupTask → List Repository → Reload
  scheduled begun : (next prev : ℕ) → Reload

pub record Scheduler : Type 0 where
  pub running : Bool
  pub cron : ℕ
  pub crons : ℕ → Cron
  -- how many crons were made
  pub made : ℕ
  pub reload : Reload

abbrev pub new_cron : Cron
new_cron = record { jobs = []; started = false }

-- NewScheduler
abbrev pub new_scheduler : Scheduler
new_scheduler = record { running = false; cron = 0; crons = λ c. new_cron; made = 1; reload = off }

abbrev pub set_cron : (ℕ → Cron) → ℕ → Cron → ℕ → Cron
set_cron crons c cron d = if nat_eq c d then cron else crons d

-- listRepos; the maintenance is left out where it fails
abbrev pub or_no_repos : Result (List Repository) → List Repository
or_no_repos (ok repos) = repos
or_no_repos (err e) = []

-- `valid` tells which expressions AddFunc accepts
module _ (valid : Text → Bool) where
  -- AddFunc, whose error is logged
  abbrev pub add_job : Job → Text → List Job → List Job
  add_job job cron_expr jobs = if valid cron_expr then jobs ++ job ∷ [] else jobs

  unfoldable pub schedule_task : BackupTask → List Job → List Job
  schedule_task task jobs =
      if is_empty task.cron_expr
      then jobs
      else add_job (task_job task.id task.cron_expr) task.cron_expr jobs

  unfoldable pub schedule_repo_maintenance : Repository → List Job → List Job
  schedule_repo_maintenance repo jobs =
      let pruned =
        if repo.prune_enabled && not (is_empty repo.prune_cron_expr)
        then add_job (prune_job repo.id repo.prune_cron_expr) repo.prune_cron_expr jobs
        else jobs in
      if repo.check_enabled && not (is_empty repo.check_cron_expr)
      then add_job (check_job repo.id repo.check_cron_expr) repo.check_cron_expr pruned
      else pruned

  unfoldable pub schedule_tasks : List BackupTask → List Job → List Job
  unfolding schedule_task
  schedule_tasks [] jobs = jobs
  schedule_tasks (task ∷ tasks) jobs = schedule_tasks tasks (schedule_task task jobs)

  unfoldable pub schedule_repos : List Repository → List Job → List Job
  unfolding schedule_repo_maintenance
  schedule_repos [] jobs = jobs
  schedule_repos (repo ∷ repos) jobs = schedule_repos repos (schedule_repo_maintenance repo jobs)

  unfoldable pub schedule_all : List BackupTask → List Repository → List Job → List Job
  unfolding schedule_tasks schedule_repos
  schedule_all tasks repos jobs = schedule_repos repos (schedule_tasks tasks jobs)

  unfoldable pub start_listed : Scheduler → Result (List BackupTask) → List Repository → Scheduler
  unfolding schedule_all
  start_listed s (err e) repos = s
  start_listed s (ok tasks) repos = record s {
    running = true;
    cron = s.made;
    crons = set_cron s.crons s.made (record { jobs = schedule_all tasks repos []; started = true });
    made = suc s.made;
  }

  -- Start, with what listTasks and listRepos return
  unfoldable pub start : Result (List BackupTask) → Result (List Repository) → Scheduler → Scheduler
  unfolding start_listed
  start tasks repos s = if s.running then s else start_listed s tasks (or_no_repos repos)

  unfoldable pub stop : Scheduler → Scheduler
  stop s =
      if s.running
      then record s {
        running = false;
        crons = set_cron s.crons s.cron (record (s.crons s.cron) { started = false });
      }
      else s

  unfoldable pub swap_listed : Scheduler → Result (List BackupTask) → List Repository → Scheduler
  swap_listed s (err e) repos = s
  swap_listed s (ok tasks) repos = record s {
    cron = s.made;
    crons = set_cron s.crons s.made new_cron;
    made = suc s.made;
    reload = swapped s.made s.cron tasks repos;
  }

  -- reloadTasks up to swapCron
  unfoldable pub begin_reload :
      Result (List BackupTask) → Result (List Repository) → Scheduler → Scheduler
  unfolding swap_listed
  begin_reload tasks repos s = swap_listed s tasks (or_no_repos repos)

  unfoldable pub advance : Scheduler → Reload → Scheduler
  unfolding schedule_all
  advance s off = s
  advance s (swapped next prev tasks repos) =
      let cron = s.crons s.cron in
      record s {
        crons = set_cron s.crons s.cron (record cron { jobs = schedule_all tasks repos cron.jobs });
        reload = scheduled next prev;
      }
  advance s (scheduled next prev) = record s {
    crons = set_cron s.crons next (record (s.crons next) { started = true });
    reload = begun next prev;
  }
  advance s (begun next prev) = record s {
    crons = set_cron s.crons prev (record (s.crons prev) { started = false });
    reload = off;
  }

  -- the next part of a reload; the jobs go to the cron that is the current one by then
  unfoldable pub advance_reload : Scheduler → Scheduler
  unfolding advance
  advance_reload s = advance s s.reload
