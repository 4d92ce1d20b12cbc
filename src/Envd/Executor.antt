-- ===== src/Envd/Executor.antt =====
-- `ProcessExecutor` of internal/envd/executor.go: paths, files and commands under a root.
pub mod Paths
pub mod Files
pub mod Command
pub mod Climb
pub mod Containment
pub mod Limits
mod Examples
