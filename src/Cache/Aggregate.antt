-- ===== src/Cache/Aggregate.antt =====
-- The state of a repository's synchronisations as a whole: aggregateSyncState and maxInt64 of
-- backend/internal/service/repo_cache_service.go. Times are numbers, in order.
pub mod Verdict
use auto_restic.Shared.{
  ℕ, ◌+◌, Bool, true, false, not, ◌&&◌, ◌||◌, List, [], ◌∷◌, ◌++◌, Option, none, some, Text, codes,
  is_empty, trim_space, if◌then◌else◌, ltb, max,
}
use auto_restic.Cache.State.{
  Domain, core, files, stats, keys, check, Status, running, success, failed, stale, interrupted,
  partial, SyncState, same_domain,
}

-- SyncStateView
pub record SyncStateView : Type 0 where
  pub status : Status
  pub phase : Text
  pub progress : ℕ
  pub generation : ℕ
  pub last_synced_at : Option ℕ
  pub error : Text
  pub log_id : Option ℕ
  pub updated_at : ℕ

-- the local variables of the loop
pub record Collected : Type 0 where
  pub view : SyncStateView
  pub latest_updated : Option ℕ
  pub latest_success : Option ℕ
  pub errors : List Text
  pub has_running : Bool
  pub has_success : Bool
  pub has_stale : Bool
  pub has_failure : Bool
  pub core_state : Option SyncState
  pub active_log_id : Option ℕ

abbrev pub empty_view : SyncStateView
empty_view = record {
  status = stale;
  phase = [];
  progress = 0;
  generation = 0;
  last_synced_at = none;
  error = [];
  log_id = none;
  updated_at = 0;
}

abbrev pub nothing_collected : Collected
nothing_collected = record {
  view = empty_view;
  latest_updated = none;
  latest_success = none;
  errors = [];
  has_running = false;
  has_success = false;
  has_stale = false;
  has_failure = false;
  core_state = none;
  active_log_id = none;
}

-- x == nil || at.After(*x)
abbrev pub is_later : Option ℕ → ℕ → Bool
is_later none at = true
is_later (some x) at = ltb x at

abbrev pub domain_name : Domain → Text
domain_name core = codes "core"
domain_name files = codes "files"
domain_name stats = codes "stats"
domain_name keys = codes "keys"
domain_name check = codes "check"

abbrev pub is_running : Status → Bool
is_running running = true
is_running _ = false

abbrev pub is_success : Status → Bool
is_success success = true
is_success _ = false

abbrev pub is_stale : Status → Bool
is_stale stale = true
is_stale _ = false

abbrev pub is_failure : Status → Bool
is_failure failed = true
is_failure interrupted = true
is_failure _ = false

abbrev pub newest_view : SyncStateView → SyncState → SyncStateView
newest_view view state = record view {
  phase = state.phase;
  progress = state.progress;
  generation = max view.generation state.generation;
  log_id = state.log_id;
  updated_at = state.updated_at;
}

-- what a state has as the time of a success, with what it says of the last one
abbrev pub newer_success : Bool → Option ℕ → Option ℕ → Option ℕ
newer_success true (some at) latest = if is_later latest at then some at else latest
newer_success true none latest = latest
newer_success false at latest = latest

abbrev pub running_log : Bool → Option ℕ → Option ℕ → Option ℕ
running_log true (some log_id) old = some log_id
running_log true none old = old
running_log false log_id old = old

-- an error of a domain, behind those before it
abbrev pub with_error : List Text → Domain → Text → List Text
with_error errors domain trimmed =
    if is_empty trimmed
    then errors
    else errors ++ (domain_name domain ++ (codes ": " ++ trimmed)) ∷ []

unfoldable pub collect_state : Collected → Domain × SyncState → Collected
unfolding same_domain
collect_state c (domain, state) =
    let newest = is_later c.latest_updated state.updated_at in
    let shown = if newest then newest_view c.view state else c.view in
    let succeeded =
      newer_success (is_success state.status) state.last_success_at c.latest_success in
    record {
      view = record shown { last_synced_at = succeeded };
      latest_updated = if newest then some state.updated_at else c.latest_updated;
      latest_success = succeeded;
      errors = with_error c.errors domain (trim_space state.last_error);
      has_running = c.has_running || is_running state.status;
      has_success = c.has_success || is_success state.status;
      has_stale = c.has_stale || is_stale state.status;
      has_failure = c.has_failure || is_failure state.status;
      core_state = if same_domain domain core then some state else c.core_state;
      active_log_id = running_log (is_running state.status) state.log_id c.active_log_id;
    }

unfoldable pub collect_states : Collected → List (Domain × SyncState) → Collected
unfolding collect_state
collect_states c [] = c
collect_states c (state ∷ states) = collect_states (collect_state c state) states

abbrev pub as_running : SyncStateView → Option ℕ → SyncStateView
as_running view log_id = record view { status = running; log_id = log_id; error = [] }

-- the verdict where the core has succeeded
abbrev pub beside_core : Collected → SyncStateView
beside_core c =
    if c.has_running
    then as_running c.view c.active_log_id
    else if c.has_failure || c.has_stale
    then record c.view { status = partial }
    else record c.view { status = success }

-- the verdict without the core, or with one in a state that the program does not set
abbrev pub without_core : Collected → SyncStateView
without_core c =
    if c.has_running
    then as_running c.view c.active_log_id
    else if c.has_failure
    then record c.view { status = failed }
    else if c.has_stale
    then record c.view { status = stale }
    else if c.has_success
    then record c.view { status = success }
    else record c.view { status = stale }

-- the verdict by the status of the core, which may have a log
unfoldable pub judge_core : Collected → Option ℕ → Status → SyncStateView
judge_core c log_id running = as_running c.view log_id
judge_core c log_id failed = record c.view { status = failed }
judge_core c log_id interrupted = record c.view { status = failed }
judge_core c log_id stale = record c.view { status = stale }
judge_core c log_id success = beside_core c
judge_core c log_id partial = without_core c

unfoldable pub judge : Collected → Option SyncState → SyncStateView
unfolding judge_core
judge c none = without_core c
judge c (some state) = judge_core c state.log_id state.status

abbrev pub join_lines : List Text → Text
join_lines [] = []
join_lines (e ∷ []) = e
join_lines (e ∷ f ∷ es) = e ++ (codes "; " ++ join_lines (f ∷ es))

abbrev pub show_errors : List Text → SyncStateView → SyncStateView
show_errors [] view = view
show_errors (e ∷ es) view = record view { error = join_lines (e ∷ es) }

unfoldable pub aggregate_sync_state : List (Domain × SyncState) → SyncStateView
unfolding collect_states judge
aggregate_sync_state [] = empty_view
aggregate_sync_state (state ∷ states) =
    let c = collect_states nothing_collected (state ∷ states) in
    show_errors c.errors (judge c c.core_state)
