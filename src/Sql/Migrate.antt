-- ===== src/Sql/Migrate.antt =====
-- internal/persistence/migrate.go and the schema of sql.go: the tables are made under a lock.
pub mod Lock
use kubebox.Common.{
  [], ◌∷◌, List, Text, codes, ◌==◌, ℤ, pos, negsuc, Option, none, some, Bool, true, false,
  if◌then◌else◌, ◌≡◌, refl, sym, subst, ◌∙◌,
}
use kubebox.Sql.Store.{Dialect, postgres, mysql, SqlStore}

-- The statements that make the tables.
abbrev pub quota_table_text : Dialect → Text
quota_table_text postgres =
    codes
      "CREATE TABLE IF NOT EXISTS t_owner_quota (tenant_id VARCHAR(128) NOT NULL, owner_id VARCHAR(128) NOT NULL, concurrent_limit INTEGER NOT NULL, current_count INTEGER NOT NULL DEFAULT 0 CHECK (current_count >= 0), PRIMARY KEY (tenant_id, owner_id))"
quota_table_text mysql =
    codes
      "CREATE TABLE IF NOT EXISTS t_owner_quota (tenant_id VARCHAR(128) NOT NULL, owner_id VARCHAR(128) NOT NULL, concurrent_limit INT NOT NULL, current_count INT NOT NULL DEFAULT 0, PRIMARY KEY (tenant_id, owner_id), CHECK (current_count >= 0))"

abbrev pub allocation_table_text : Dialect → Text
allocation_table_text postgres =
    codes
      "CREATE TABLE IF NOT EXISTS t_quota_allocation (allocation_id VARCHAR(128) PRIMARY KEY, tenant_id VARCHAR(128) NOT NULL, owner_id VARCHAR(128) NOT NULL, sandbox_id VARCHAR(128) NOT NULL, status VARCHAR(16) NOT NULL, created_time TIMESTAMP(3) NOT NULL, released_time TIMESTAMP(3))"
allocation_table_text mysql =
    codes
      "CREATE TABLE IF NOT EXISTS t_quota_allocation (allocation_id VARCHAR(128) PRIMARY KEY, tenant_id VARCHAR(128) NOT NULL, owner_id VARCHAR(128) NOT NULL, sandbox_id VARCHAR(128) NOT NULL, status VARCHAR(16) NOT NULL, created_time DATETIME(3) NOT NULL, released_time DATETIME(3))"

abbrev pub key_table_text : Dialect → Text
key_table_text postgres =
    codes
      "CREATE TABLE IF NOT EXISTS t_idempotency_key (tenant_id VARCHAR(128) NOT NULL, idem_key VARCHAR(256) NOT NULL, owner_id VARCHAR(128) NOT NULL, request_hash CHAR(64) NOT NULL, status VARCHAR(16) NOT NULL, resource_id VARCHAR(128), lease_version BIGINT NOT NULL DEFAULT 1, expires_at TIMESTAMP(3) NOT NULL, PRIMARY KEY (tenant_id, idem_key))"
key_table_text mysql =
    codes
      "CREATE TABLE IF NOT EXISTS t_idempotency_key (tenant_id VARCHAR(128) NOT NULL, idem_key VARCHAR(256) NOT NULL, owner_id VARCHAR(128) NOT NULL, request_hash CHAR(64) NOT NULL, status VARCHAR(16) NOT NULL, resource_id VARCHAR(128), lease_version BIGINT NOT NULL DEFAULT 1, expires_at DATETIME(3) NOT NULL, PRIMARY KEY (tenant_id, idem_key))"

unfoldable pub schema_statements : Dialect → List Text
schema_statements s = quota_table_text s ∷ allocation_table_text s ∷ key_table_text s ∷ []

-- The answer of `GET_LOCK`, whose value may be NULL.
pub data LockAnswer : Type 0 where
  lock_value : Option ℤ → LockAnswer
  lock_failing : Text → LockAnswer

-- What a migration asks of a database `D`: a statement on any connection, and one connection of its
-- own with the statements on it.
pub record MigrationApi (D : Type 0) : Type 0 where
  pub exec_db : D → Text → D × Option Text
  pub open_conn : D → D × Option Text
  pub exec : D → Text → D × Option Text
  -- `pg_advisory_lock` and `pg_advisory_unlock` of the key.
  pub advisory_lock : D → ℤ → D × Option Text
  pub advisory_unlock : D → ℤ → D
  pub get_lock : D → D × LockAnswer
  pub release_lock : D → D
  pub close_conn : D → D

pub data MigrateError : Type 0 where
  driver_error : Text → MigrateError
  lock_error : Text → MigrateError
  lock_timed_out : MigrateError

abbrev pub migration_lock_key : ℤ
migration_lock_key = pos 7378697629483820646

unfoldable pub after_statement :
    {D : Type 0} → D × Option Text → (D → D × Option MigrateError) → D × Option MigrateError
after_statement (d, some e) rest = (d, some (driver_error e))
after_statement (d, none) rest = rest d

-- The loop over the statements, which ends at the first error.
unfoldable pub run_statements :
    {D : Type 0} → (D → Text → D × Option Text) → List Text → D → D × Option MigrateError
unfolding after_statement
run_statements exec [] d = (d, none)
run_statements exec (q ∷ qs) d = after_statement (exec d q) (λ d'. run_statements exec qs d')

module _ {D : Type 0} (api : MigrationApi D) where
  unfoldable pub migrate : SqlStore D → D × Option MigrateError
  unfolding schema_statements run_statements
  migrate s = run_statements api.exec_db (schema_statements s.dialect) s.db

  unfoldable pub of_advisory : D × Option Text → D × Option MigrateError
  of_advisory (d, some e) = (d, some (lock_error e))
  of_advisory (d, none) = (d, none)

  is_got : Option ℤ → Bool
  is_got (some (pos n)) = n == 1
  is_got _ = false

  unfoldable pub of_get_lock : D × LockAnswer → D × Option MigrateError
  unfolding is_got
  of_get_lock (d, lock_failing e) = (d, some (lock_error e))
  of_get_lock (d, lock_value got) = (d, if is_got got then none else some lock_timed_out)

  unfoldable pub acquire_migration_lock : Dialect → D → D × Option MigrateError
  unfolding of_advisory of_get_lock
  acquire_migration_lock postgres d = of_advisory (api.advisory_lock d migration_lock_key)
  acquire_migration_lock mysql d = of_get_lock (api.get_lock d)

  -- The function that `acquireMigrationLock` returns.
  unfoldable pub unlock : Dialect → D → D
  unlock postgres d = api.advisory_unlock d migration_lock_key
  unlock mysql d = api.release_lock d

  -- `defer unlock()` and `defer conn.Close()` around the statements.
  unfoldable pub after_lock : Dialect → D × Option MigrateError → D × Option MigrateError
  unfolding unlock schema_statements run_statements
  after_lock s (d, some e) = (api.close_conn d, some e)
  after_lock s (d, none) =
      let (d', e) = run_statements api.exec (schema_statements s) d in
      (api.close_conn (unlock s d'), e)

  unfoldable pub after_conn : Dialect → D × Option Text → D × Option MigrateError
  unfolding after_lock acquire_migration_lock
  after_conn s (d, some e) = (d, some (driver_error e))
  after_conn s (d, none) = after_lock s (acquire_migration_lock s d)

  unfoldable pub migrate_locked : SqlStore D → D × Option MigrateError
  unfolding after_conn
  migrate_locked s = after_conn s.dialect (api.open_conn s.db)
