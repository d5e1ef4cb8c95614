-- ===== src/Scheduler/OneCron.antt =====
-- Which crons run while no reload overlaps a Stop.
use auto_restic.Shared.{
  ℕ, ◌<◌, ◌≤◌, Bool, true, false, ◌≡◌, refl, sym, ap, ◌∙◌, subst, List, Text, nat_eq_iff,
  if◌then◌else◌, arith,
}
use auto_restic.Exec.{Result, ok, err}
use auto_restic.Task.Args.{BackupTask}
use auto_restic.Scheduler.Crons.{
  Repository, Reload, off, swapped, scheduled, begun, Scheduler, new_scheduler, set_cron,
  or_no_repos, start, start_listed, stop, begin_reload, swap_listed, advance, advance_reload,
}

not_both : {b : Bool} → b ≡ true → ¬ b ≡ false
not_both h k = cc

module _ (valid : Text → Bool) where
  -- The calls, and the parts of a reload. reloadMu lets one reload go on at a time; nothing keeps a
  -- reload from beginning behind a Stop, or a Stop from coming while one is on its way.
  pub data Step (s : Scheduler) : Scheduler → Type 0 where
    starts :
        (tasks : Result (List BackupTask)) (repos : Result (List Repository))
        → Step s (start valid tasks repos s)
    stops : Step s (stop valid s)
    reloads :
        (tasks : Result (List BackupTask)) (repos : Result (List Repository))
        → s.reload ≡ off
        → Step s (begin_reload valid tasks repos s)
    advances : Step s (advance_reload valid s)

  pub data Reach : Scheduler → Type 0 where
    first : Reach new_scheduler
    later : {s s' : Scheduler} → Reach s → Step s s' → Reach s'

  -- A Stop finds no reload on its way, and a reload begins while the scheduler runs.
  abbrev pub Calm : {s s' : Scheduler} → Step s s' → Type 0
  Calm (starts tasks repos) = Unit
  Calm {s} stops = s.reload ≡ off
  Calm {s} (reloads tasks repos idle) = s.running ≡ true
  Calm advances = Unit

  abbrev pub Undisturbed : {s : Scheduler} → Reach s → Type 0
  Undisturbed first = Unit
  Undisturbed (later reach step) = Undisturbed reach × Calm step

  -- Only the current cron runs, and it does if the scheduler does.
  record Settled (s : Scheduler) : Type 0 where
    only_current : (c : ℕ) → (s.crons c).started ≡ true → c ≡ s.cron
    runs : (s.crons s.cron).started ≡ s.running

  -- The one before runs, until the next one does.
  record Replacing (s : Scheduler) (fresh prev : ℕ) : Type 0 where
    is_running : s.running ≡ true
    current : s.cron ≡ fresh
    apart : ¬ fresh ≡ prev
    only_prev : (c : ℕ) → (s.crons c).started ≡ true → c ≡ prev

  -- Both run.
  record Replaced (s : Scheduler) (fresh prev : ℕ) : Type 0 where
    is_running : s.running ≡ true
    current : s.cron ≡ fresh
    apart : ¬ fresh ≡ prev
    fresh_runs : (s.crons fresh).started ≡ true
    only_both : (c : ℕ) → (s.crons c).started ≡ true → ¬ c ≡ prev → c ≡ fresh

  abbrev PhaseOk : Scheduler → Reload → Type 0
  PhaseOk s off = Settled s
  PhaseOk s (swapped fresh prev tasks repos) = Replacing s fresh prev
  PhaseOk s (scheduled fresh prev) = Replacing s fresh prev
  PhaseOk s (begun fresh prev) = Replaced s fresh prev

  record IsOrderly (s : Scheduler) : Type 0 where
    made_later : s.cron < s.made
    unmade : (c : ℕ) → s.made ≤ c → (s.crons c).started ≡ false
    phase : PhaseOk s s.reload

  start-IsOrderly :
      (tasks : Result (List BackupTask)) (repos : Result (List Repository)) (s : Scheduler)
      → IsOrderly s
      → IsOrderly (start valid tasks repos s)
  unfolding start start_listed
  start-IsOrderly tasks repos s h = branch s.running refl
    where
      fresh :
          (tasks : List BackupTask)
          → Settled s
          → s.reload ≡ off
          → s.running ≡ false
          → IsOrderly (start_listed valid s (ok tasks) (or_no_repos repos))
      fresh tasks settled idle halted = record {
        made_later = omega arith;
        unmade = λ c above. ground (arith, h.unmade c, nat_eq_iff s.made c);
        phase =
            subst (PhaseOk (start_listed valid s (ok tasks) (or_no_repos repos))) (sym idle)
              (record {
                only_current = λ c on.
                    ground (arith, settled.only_current c, settled.runs, nat_eq_iff s.made c);
                runs = ground (arith, nat_eq_iff s.made s.made);
              });
      }

      listed :
          (tasks : Result (List BackupTask))
          → s.running ≡ false
          → (r : Reload) → s.reload ≡ r
          → IsOrderly (start_listed valid s tasks (or_no_repos repos))
      listed (err e) halted r eq = h
      listed (ok tasks) halted off eq = fresh tasks (subst (PhaseOk s) eq h.phase) eq halted
      listed (ok tasks) halted (swapped n p ts rs) eq =
          let replacing : Replacing s n p = subst (PhaseOk s) eq h.phase in
          absurd (not_both replacing.is_running halted)
      listed (ok tasks) halted (scheduled n p) eq =
          let replacing : Replacing s n p = subst (PhaseOk s) eq h.phase in
          absurd (not_both replacing.is_running halted)
      listed (ok tasks) halted (begun n p) eq =
          let replaced : Replaced s n p = subst (PhaseOk s) eq h.phase in
          absurd (not_both replaced.is_running halted)

      branch :
          (b : Bool)
          → s.running ≡ b
          → IsOrderly (if b then s else start_listed valid s tasks (or_no_repos repos))
      branch true on = h
      branch false halted = listed tasks halted s.reload refl

  stop-IsOrderly : (s : Scheduler) → s.reload ≡ off → IsOrderly s → IsOrderly (stop valid s)
  unfolding stop
  stop-IsOrderly s idle h = branch s.running
    where
      after : Scheduler
      after = record s {
        running = false;
        crons = set_cron s.crons s.cron (record (s.crons s.cron) { started = false });
      }

      halted : Settled s → IsOrderly after
      halted settled = record {
        made_later = h.made_later;
        unmade = λ c above. ground (arith, h.unmade c, nat_eq_iff s.cron c);
        phase = subst (PhaseOk after) (sym idle) (record {
          only_current = λ c on. ground (arith, settled.only_current c, nat_eq_iff s.cron c);
          runs = ground (arith, nat_eq_iff s.cron s.cron);
        });
      }

      branch : (b : Bool) → IsOrderly (if b then after else s)
      branch true = halted (subst (PhaseOk s) idle h.phase)
      branch false = h

  begin_reload-IsOrderly :
      (tasks : Result (List BackupTask)) (repos : Result (List Repository)) (s : Scheduler)
      → s.running ≡ true
      → s.reload ≡ off
      → IsOrderly s
      → IsOrderly (begin_reload valid tasks repos s)
  unfolding begin_reload swap_listed
  begin_reload-IsOrderly (err e) repos s runs idle h = h
  begin_reload-IsOrderly (ok tasks) repos s runs idle h =
      let settled : Settled s = subst (PhaseOk s) idle h.phase in
      record {
        made_later = omega arith;
        unmade = λ c above. ground (arith, h.unmade c, nat_eq_iff s.made c);
        phase = record {
          is_running = runs;
          current = refl;
          apart = λ same. ground (arith, h.made_later);
          only_prev = λ c on. ground (arith, settled.only_current c, nat_eq_iff s.made c);
        };
      }

  advance-IsOrderly :
      (s : Scheduler) (r : Reload) → s.reload ≡ r → IsOrderly s → IsOrderly (advance valid s r)
  unfolding advance
  advance-IsOrderly s off e h = h
  advance-IsOrderly s (swapped fresh prev tasks repos) e h =
      let p : Replacing s fresh prev = subst (PhaseOk s) e h.phase in
      record {
        made_later = h.made_later;
        unmade = λ c above. ground (arith, h.unmade c, nat_eq_iff s.cron c);
        phase = record {
          is_running = p.is_running;
          current = p.current;
          apart = p.apart;
          only_prev =
              λ c on. ground (arith, p.only_prev c, p.only_prev s.cron, nat_eq_iff s.cron c);
        };
      }
  advance-IsOrderly s (scheduled fresh prev) e h =
      let p : Replacing s fresh prev = subst (PhaseOk s) e h.phase in
      record {
        made_later = h.made_later;
        unmade = λ c above. ground (arith, h.made_later, p.current, h.unmade c, nat_eq_iff fresh c);
        phase = record {
          is_running = p.is_running;
          current = p.current;
          apart = p.apart;
          fresh_runs = ground (arith, nat_eq_iff fresh fresh);
          only_both = λ c on other. ground (arith, p.only_prev c, nat_eq_iff fresh c);
        };
      }
  advance-IsOrderly s (begun fresh prev) e h =
      let p : Replaced s fresh prev = subst (PhaseOk s) e h.phase in
      record {
        made_later = h.made_later;
        unmade = λ c above. ground (arith, h.unmade c, nat_eq_iff prev c);
        phase = record {
          only_current = λ c on. ground (arith, p.current, p.only_both c, nat_eq_iff prev c);
          runs = ground (
            arith,
            p.current,
            p.is_running,
            p.fresh_runs,
            p.apart,
            nat_eq_iff prev fresh,
            nat_eq_iff prev s.cron,
          );
        };
      }

  Reach-IsOrderly : {s : Scheduler} (reach : Reach s) → Undisturbed reach → IsOrderly s
  unfolding advance_reload
  Reach-IsOrderly first calm = record {
    made_later = omega arith;
    unmade = λ c above. refl;
    phase = record { only_current = λ c on. absurd (not_both on refl); runs = refl };
  }
  Reach-IsOrderly (later {s} reach (starts tasks repos)) calm =
      start-IsOrderly tasks repos s (Reach-IsOrderly reach calm.0)
  Reach-IsOrderly (later {s} reach stops) calm =
      stop-IsOrderly s calm.1 (Reach-IsOrderly reach calm.0)
  Reach-IsOrderly (later {s} reach (reloads tasks repos idle)) calm =
      begin_reload-IsOrderly tasks repos s calm.1 idle (Reach-IsOrderly reach calm.0)
  Reach-IsOrderly (later {s} reach advances) calm =
      advance-IsOrderly s s.reload refl (Reach-IsOrderly reach calm.0)

  -- As long as every reload begins while the scheduler runs and no Stop comes while one is on its
  -- way, no cron runs between reloads but the current one, so that no job falls due twice or on an
  -- old schedule, and it does so only while the scheduler runs.
  pub Reach_one_cron :
      {s : Scheduler} (reach : Reach s) (c : ℕ)
      → Undisturbed reach
      → s.reload ≡ off
      → (s.crons c).started ≡ true
      → (c ≡ s.cron) × (s.running ≡ true)
  Reach_one_cron {s} reach c calm idle on =
      let settled : Settled s = subst (PhaseOk s) idle (Reach-IsOrderly reach calm).phase in
      let same = settled.only_current c on in
      (same, sym settled.runs ∙ ap (λ d. (s.crons d).started) (sym same) ∙ on)

  -- In the same situation the current cron runs if and only if the scheduler does.
  Reach_current_cron_runs :
      {s : Scheduler} (reach : Reach s)
      → Undisturbed reach
      → s.reload ≡ off
      → (s.crons s.cron).started ≡ s.running
  Reach_current_cron_runs {s} reach calm idle =
      let settled : Settled s = subst (PhaseOk s) idle (Reach-IsOrderly reach calm).phase in
      settled.runs
