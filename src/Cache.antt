-- ===== src/Cache.antt =====
-- The cache of what restic reports: backend/internal/service/repo_cache_service.go.
pub mod Queue
pub mod State
pub mod Rows
pub mod Snapshots
pub mod Core
pub mod Triples
pub mod Steps
pub mod Serving
pub mod Finish
pub mod Refresh
pub mod Stuck
pub mod Targets
pub mod Work
pub mod Aggregate
pub mod Planner
