-- ===== src/Commands.antt =====
-- cmd: the programs of the repository, each a composition of the packages under internal.
pub mod Process
pub mod EnvdProxy
pub mod ControlPlane
pub mod EnvdMain
mod Examples
