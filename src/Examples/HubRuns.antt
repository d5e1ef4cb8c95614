-- ===== src/Examples/HubRuns.antt =====
-- A hub with one client that gets a message, and one that is removed in the middle of a broadcast:
-- backend/internal/ws/hub.go.
use auto_restic.Shared.{
  ◌≡◌, refl, false, List, [], ◌∷◌, ◌++◌, none, some, lookup, insert, Eq-ℕ, codes,
}
use auto_restic.Hub.{
  or_empty, set_channel, register, snapshot_clients, pump, send_next, send_message, take_out,
  Serving, Event, registers, broadcasts, sends, pumps, removes, send_output, step, run, new_hub,
  new_serving,
}
use auto_restic.Hub.Safety.{IsSafe}
use auto_restic.Hub.Runs.{IsCalmRun, run_never_panics}
use auto_restic.Hub.Disturbed.{removed_while_sending_panics}

abbrev two_events : List Event
two_events = registers 3 8 ∷ broadcasts (send_output 3 [] (codes "saved")) ∷ []

two_events-IsCalmRun : IsCalmRun new_serving two_events
unfolding lookup
two_events-IsCalmRun = (λ idle. refl, λ t e. (tt, λ u f. tt))

run_never_panics_example : (t : Serving) × ((run new_serving two_events ≡ some t) × IsSafe t.hub)
run_never_panics_example = run_never_panics two_events two_events-IsCalmRun

-- Connection 8 is registered for execution 3 and gets a message; the pump takes it and fails to write
-- it, while another message is broadcast.
abbrev disturbed : Serving
disturbed = record {
  hub = record {
    clients = (3, (8, 0) ∷ []) ∷ [];
    channels =
        set_channel
          (set_channel
            (set_channel new_hub.channels 0
              (record { execution_id = 3; conn = 8; queue = []; closed = false }))
            0
            (record {
              execution_id = 3;
              conn = 8;
              queue = send_output 3 [] (codes "one") ∷ [];
              closed = false;
            }))
          0 (record { execution_id = 3; conn = 8; queue = []; closed = false });
    next_channel = 1;
  };
  message = send_output 3 [] (codes "two");
  pending = (8, 0) ∷ [];
  removals = (3, 8) ∷ [];
}

abbrev disturbing : List Event
disturbing =
    registers 3 8
    ∷ broadcasts (send_output 3 [] (codes "one"))
    ∷ sends
    ∷ broadcasts (send_output 3 [] (codes "two"))
    ∷ pumps 0 false
    ∷ []

disturbed_lem : run new_serving disturbing ≡ some disturbed
unfolding run step register snapshot_clients send_next send_message pump lookup insert
disturbed_lem = refl

registered : lookup 8 (or_empty (lookup 3 disturbed.hub.clients)) ≡ some 0
unfolding lookup
registered = refl

about_to : take_out 0 disturbed.removals ≡ some ((3, 8), [])
unfolding take_out
about_to = refl

removed_while_sending_panics_example : run new_serving (disturbing ++ removes 0 ∷ sends ∷ []) ≡ none
removed_while_sending_panics_example =
    removed_while_sending_panics disturbing disturbed 8 0 0 [] [] disturbed_lem refl about_to
      registered refl
