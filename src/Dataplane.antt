-- ===== src/Dataplane.antt =====
-- internal/dataplane: the public edge in front of the sandboxes.
pub mod Token
pub mod Routes
pub mod Health
pub mod Proxy
pub mod Admin
pub mod RouteClient
mod Examples
