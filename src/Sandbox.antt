-- ===== src/Sandbox.antt =====
-- internal/sandbox: the control plane's sandbox store and its HTTP interface.
pub mod Types
pub mod Quotas
pub mod Create
pub mod Lifecycle
pub mod Ledger
pub mod Idempotency
pub mod Http
pub mod Failures
pub mod Mirror
pub mod Boundary
mod Examples
