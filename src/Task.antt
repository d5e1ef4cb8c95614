-- ===== src/Task.antt =====
-- Backup tasks: backend/internal/service/task_service.go.
pub mod Sort
pub mod Rows
pub mod Args
pub mod Hooks
pub mod Run
pub mod Guarded
