-- ===== src/Scheduler/Stopped.antt =====
-- A Stop that comes while a reload is on its way.
use auto_restic.Shared.{
  subst, ◌≢◌, ℕ, Bool, true, false, ◌≡◌, refl, sym, ap, ◌∙◌, Text, nat_eq_iff, if◌then◌else◌, arith,
}
use auto_restic.Scheduler.Crons.{
  off, scheduled, begun, Scheduler, set_cron, stop, advance, advance_reload,
}

stop-running :
    (valid : Text → Bool) (s : Scheduler) → s.running ≡ true → (stop valid s).running ≡ false
unfolding stop
stop-running valid s on = ground arith

stop-reload : (valid : Text → Bool) (s : Scheduler) → (stop valid s).reload ≡ s.reload
unfolding stop
stop-reload valid s = ground arith

stop_idle : (valid : Text → Bool) (s : Scheduler) → s.running ≡ false → stop valid s ≡ s
unfolding stop
stop_idle valid s halted = go s.running halted
  where
    go :
        (b : Bool)
        → b ≡ false
        → (if b
            then (record s {
              running = false;
              crons = set_cron s.crons s.cron (record (s.crons s.cron) { started = false });
            })
            else s)
          ≡ s
    go true h = cc
    go false h = refl

-- the rest of a reload, from its start of the new cron on
resume :
    (valid : Text → Bool) (s : Scheduler) (fresh prev : ℕ)
    → s.running ≡ false
    → s.reload ≡ scheduled fresh prev
    → fresh ≢ prev
    → let after = advance_reload valid (advance_reload valid s) in
      (after.reload ≡ off)
      × ((after.running ≡ false)
          × ((stop valid after ≡ after) × ((after.crons fresh).started ≡ true)))
unfolding advance_reload advance
resume valid s fresh prev halted at apart =
    let done = advance valid (advance valid s (scheduled fresh prev)) (begun fresh prev) in
    let eq : advance_reload valid (advance_reload valid s) ≡ done =
      ap (λ r. advance_reload valid (advance valid s r)) at in
    subst
      (λ after.
        (after.reload ≡ off)
        × ((after.running ≡ false)
            × ((stop valid after ≡ after) × ((after.crons fresh).started ≡ true))))
      (sym eq) (refl, (halted, (stop_idle valid done halted, on_again)))
  where
    on_again :
        ((advance valid (advance valid s (scheduled fresh prev)) (begun fresh prev)).crons
          fresh).started
        ≡ true
    on_again = ground (arith, nat_eq_iff prev fresh, nat_eq_iff fresh fresh)

-- A scheduler that is stopped once a reload has put a new cron in and given it its jobs, and before
-- the reload starts it, is left with a cron that runs: when the reload is through, the scheduler does
-- not run, the next Stop changes nothing, and yet the new cron was started after the Stop.
pub stop_during_reload :
    (valid : Text → Bool) (s : Scheduler) (fresh prev : ℕ)
    → s.running ≡ true
    → s.reload ≡ scheduled fresh prev
    → fresh ≢ prev
    → let after = advance_reload valid (advance_reload valid (stop valid s)) in
      (after.reload ≡ off)
      × ((after.running ≡ false)
          × ((stop valid after ≡ after) × ((after.crons fresh).started ≡ true)))
stop_during_reload valid s fresh prev on at apart =
    resume valid (stop valid s) fresh prev (stop-running valid s on) (stop-reload valid s ∙ at)
      apart
