-- ===== src/Output.antt =====
-- What a command prints, and what is kept of it: backend/internal/model/execution_log.go, and the
-- output buffers of backend/internal/executor/executor.go.
pub mod Marker
pub mod Buffer
pub mod Streams
