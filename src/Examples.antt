-- ===== src/Examples.antt =====
-- The theorems at concrete inputs.
pub mod OutputRuns
pub mod RepoRuns
pub mod HubRuns
pub mod TaskRuns
pub mod HookRuns
pub mod CacheRuns
pub mod SchedulerRuns
pub mod ExecutorRuns
pub mod PlannerRuns
pub mod SaveRuns
pub mod LockRuns
pub mod CommandRuns
pub mod WebRuns
pub mod LogRuns
pub mod RowRuns
