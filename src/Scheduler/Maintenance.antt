-- ===== src/Scheduler/Maintenance.antt =====
-- The maintenance of repositories: startMaintenance, currentMaintenance, finishMaintenance and
-- runRepoMaintenance of backend/internal/scheduler/scheduler.go.
use auto_restic.Shared.{
  ℕ, ◌≡◌, refl, Bool, true, false, not, ◌&&◌, ◌||◌, List, [], none, some, Text, nat_eq, nat_eq_iff,
  lookup, insert, erase, lookup-insert, lookup-erase, Eq-ℕ, if◌then◌else◌, arith, is_some,
}
use auto_restic.Guard.{Guard, Runs, Reach, Reach-IsGuarded}

-- activeMaintenance
abbrev pub Maintenance : Type 0
Maintenance = List (ℕ × Text)

unfoldable pub is_maintained : Maintenance → ℕ → Bool
is_maintained active repo_id = is_some (lookup repo_id active)

unfoldable pub start_maintenance : Text → ℕ → Maintenance → Maintenance × Bool
unfolding is_maintained
start_maintenance kind repo_id active =
    if is_maintained active repo_id then (active, false) else (insert repo_id kind active, true)

unfoldable pub current_maintenance : ℕ → Maintenance → Text
current_maintenance repo_id active = elim (lookup repo_id active) [ none ↦ [] | some kind ↦ kind ]

unfoldable pub finish_maintenance : ℕ → Maintenance → Maintenance
finish_maintenance repo_id active = erase repo_id active

-- What runRepoMaintenance does: it runs the maintenance, or logs what runs already.
pub data Maintained : Type 0 where
  ran : (kind : Text) → (repo_id : ℕ) → Maintained
  skipped : (kind : Text) → (repo_id : ℕ) → (running : Text) → Maintained

unfoldable pub run_repo_maintenance : Text → ℕ → Maintenance → Maintenance × Maintained
unfolding start_maintenance current_maintenance finish_maintenance
run_repo_maintenance kind repo_id active =
    let (marked, fresh) = start_maintenance kind repo_id active in
    if fresh
    then (finish_maintenance repo_id marked, ran kind repo_id)
    else (marked, skipped kind repo_id (current_maintenance repo_id marked))

pub start_says_lem :
    (kind : Text) (k : ℕ) (s : Maintenance)
    → (start_maintenance kind k s).1 ≡ not (is_maintained s k)
unfolding start_maintenance
start_says_lem kind k s = ground arith

pub start_marks_lem :
    (kind : Text) (k j : ℕ) (s : Maintenance)
    → is_maintained (start_maintenance kind k s).0 j ≡ nat_eq k j || is_maintained s j
unfolding start_maintenance is_maintained
start_marks_lem kind k j s = ground (arith, lookup-insert k j kind s, nat_eq_iff k j)

pub finish_clears_lem :
    (k j : ℕ) (s : Maintenance)
    → is_maintained (finish_maintenance k s) j ≡ not (nat_eq k j) && is_maintained s j
unfolding finish_maintenance is_maintained
finish_clears_lem k j s = ground (arith, lookup-erase k j s)

pub nothing_maintained : (k : ℕ) → is_maintained [] k ≡ false
unfolding is_maintained lookup
nothing_maintained k = refl

-- the guard of the repositories; a run is marked with its kind
abbrev pub maintenance_guard : Guard
maintenance_guard = record {
  State = Maintenance;
  Label = Text;
  initial = [];
  marked = is_maintained;
  mark = start_maintenance;
  clear = finish_maintenance;
  nothing_marked = nothing_maintained;
  mark_says = start_says_lem;
  mark_marks = start_marks_lem;
  clear_clears = finish_clears_lem;
}

-- A repository is maintained by one run at a time: a scheduled prune and a scheduled check of it do
-- not overlap, and neither do two of a kind.
pub maintenance_runs_once :
    {r : Runs maintenance_guard} (reach : Reach maintenance_guard r) (i j k : ℕ)
    → r.running i ≡ some k
    → r.running j ≡ some k
    → i ≡ j
maintenance_runs_once reach i j k runs runs' =
    (Reach-IsGuarded maintenance_guard reach).one_run i j k runs runs'

-- A scheduled maintenance, run or skipped, leaves what is marked as it was.
pub run_repo_maintenance_keeps :
    (kind : Text) (repo_id : ℕ) (active : Maintenance) (j : ℕ)
    → is_maintained (run_repo_maintenance kind repo_id active).0 j ≡ is_maintained active j
unfolding run_repo_maintenance start_maintenance finish_maintenance is_maintained
run_repo_maintenance_keeps kind repo_id active j = ground (
  arith,
  lookup-insert repo_id j kind active,
  lookup-erase repo_id j (insert repo_id kind active),
  nat_eq_iff repo_id j,
)
