-- ===== src/Examples/SchedulerRuns.antt =====
-- A scheduler that is started and reloaded, and one that is stopped in between:
-- backend/internal/scheduler/scheduler.go.
use auto_restic.Shared.{ℕ, ◌≡◌, ◌≢◌, refl, Bool, true, false, [], Text, arith}
use auto_restic.Exec.{ok}
use auto_restic.Scheduler.Crons.{
  off, scheduled, Scheduler, new_scheduler, start, stop, begin_reload, advance_reload,
}
use auto_restic.Scheduler.OneCron.{Reach_one_cron}
use auto_restic.Scheduler.Stopped.{stop_during_reload}

abbrev all_valid : Text → Bool
all_valid cron_expr = true

abbrev started : Scheduler
started = start all_valid (ok []) (ok []) new_scheduler

abbrev started-Reach : auto_restic.Scheduler.OneCron.Reach all_valid started
started-Reach =
    auto_restic.Scheduler.OneCron.Reach.later auto_restic.Scheduler.OneCron.Reach.first
      (auto_restic.Scheduler.OneCron.Step.starts (ok []) (ok []))

started-off : started.reload ≡ off
unfolding start
started-off = refl

started-on : (started.crons 1).started ≡ true
unfolding start
started-on = refl

Reach_one_cron_example : (1 ≡ started.cron) × (started.running ≡ true)
Reach_one_cron_example = Reach_one_cron all_valid started-Reach 1 (tt, tt) started-off started-on

-- a reload that scheduled the jobs of cron 2, in place of cron 1
abbrev reloading : Scheduler
reloading = advance_reload all_valid (begin_reload all_valid (ok []) (ok []) started)

reloading-on : reloading.running ≡ true
unfolding start begin_reload advance_reload
reloading-on = refl

reloading-scheduled : reloading.reload ≡ scheduled 2 1
unfolding start begin_reload advance_reload
reloading-scheduled = refl

two_is_not_one : ◌≢◌ {A = ℕ} 2 1
two_is_not_one e = omega arith

stop_during_reload_example :
    ((advance_reload all_valid (advance_reload all_valid (stop all_valid reloading))).reload ≡ off)
    × (((advance_reload all_valid (advance_reload all_valid (stop all_valid reloading))).running
          ≡ false)
        × ((stop all_valid
                (advance_reload all_valid (advance_reload all_valid (stop all_valid reloading)))
              ≡ advance_reload all_valid (advance_reload all_valid (stop all_valid reloading)))
            × (((advance_reload all_valid
                    (advance_reload all_valid (stop all_valid reloading))).crons
                  2).started
                ≡ true)))
stop_during_reload_example =
    stop_during_reload all_valid reloading 2 1 reloading-on reloading-scheduled two_is_not_one
