-- ===== src/Scheduler.antt =====
-- The scheduler: backend/internal/scheduler/scheduler.go.
pub mod Maintenance
pub mod Crons
pub mod OneCron
pub mod Stopped
