-- ===== src/Sql.antt =====
-- internal/persistence/sql.go, migrate.go and open.go: the governance store over a database.
pub mod Database
pub mod Store
pub mod Tables
pub mod Atomic
pub mod Refinement
pub mod Refusals
pub mod Claims
mod Examples
pub mod Rows
pub mod Ledger
pub mod Bind
pub mod Migrate
pub mod Open
