-- ===== src/Envd.antt =====
-- internal/envd: the execution service inside a sandbox.
pub mod Authorize
pub mod Output
pub mod Executor
pub mod Service
mod Examples
