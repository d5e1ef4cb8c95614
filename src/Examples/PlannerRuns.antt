-- ===== src/Examples/PlannerRuns.antt =====
-- A round of the planner over two repositories, one of which is due:
-- backend/internal/service/repo_cache_service.go.
use mathlib.Core.List.{Memᴰ}
use auto_restic.Shared.{ℕ, ◌≡◌, ◌⊎◌, refl, true, false, List, [], ◌∷◌, none, some, All, length}
use auto_restic.Exec.{ok, empty_result}
use auto_restic.Cache.State.{core, failed, success, Status, Env, Db}
use auto_restic.Cache.Planner.{
  RefreshCandidate, precedes, Planned, max_planner_queues_per_round, next_refresh_candidate,
  plan_refresh_round, candidate_at,
}
use auto_restic.Cache.Planner.Turns.{plan_refresh_round_turns}

abbrev quiet_env : Env
quiet_env = record {
  fault = λ n. none;
  clock = λ n. n;
  reported = λ args n. (empty_result, none);
  started = λ args n. none;
  error_text = λ e. [];
  is_object = λ payload. true;
  decode_snapshots = λ payload. some [];
}

-- rows with this status of the core, of time 30
abbrev rows_of : Status → Db
rows_of status = record {
  sync_states = λ domain. some (record {
    status = status;
    phase = [];
    progress = 0;
    generation = 1;
    last_success_at = none;
    last_error = [];
    log_id = none;
    updated_at = 30;
  });
  restic_config = [];
  stats = [];
  snapshots = [];
  file_indexes = [];
  file_work = [];
  executed = 0;
}

abbrev repository_of : ℕ → Status → Planned
repository_of id status = record {
  repo_id = id;
  env = quiet_env;
  rows = rows_of status;
  is_active = λ domain. false;
}

abbrev two_repositories : List Planned
two_repositories = repository_of 1 success ∷ repository_of 2 failed ∷ []

abbrev second : RefreshCandidate
second = candidate_at 2 core 30

second_due : next_refresh_candidate 50 (repository_of 2 failed) ≡ ok (some second)
unfolding next_refresh_candidate
second_due = refl

round : plan_refresh_round 50 two_repositories ≡ ok (second ∷ [])
unfolding plan_refresh_round
round = refl

plan_refresh_round_turns_example :
    Memᴰ second (second ∷ [])
    ⊎ ((length (second ∷ []) ≡ max_planner_queues_per_round)
        × All (λ d. precedes second d ≡ false) (second ∷ []))
plan_refresh_round_turns_example =
    plan_refresh_round_turns 50 two_repositories (second ∷ []) (repository_of 2 failed) second round
      (Memᴰ.tail (Memᴰ.head refl)) second_due
