-- ===== src/Sql/Open.antt =====
-- internal/persistence/open.go: a store from a URL-style DSN.
use kubebox.Common.{
  [], ◌∷◌, ◌++◌, Text, codes, is_empty, text_eq, starts_with, trim_prefix, Option, none, some, ◌||◌,
  if◌then◌else◌, ◌≡◌, refl,
}
use kubebox.Sql.Database.{Answer, done, failing}
use kubebox.Sql.Store.{Dialect, postgres, mysql, SqlStore, new_sql_store, dialect_of}
use kubebox.Sql.Migrate.{MigrationApi, MigrateError, migrate_locked}

-- The parts of a parsed URL that are read.
pub record DsnUrl : Type 0 where
  pub username : Text
  pub password : Text
  pub host : Text
  pub path : Text
  pub raw_query : Text

pub data DsnError : Type 0 where
  unparsed : Text → DsnError
  lacks_host_or_name : DsnError
  -- The DSN, whose scheme is none of those that are supported.
  unsupported : Text → DsnError

pub record ParsedDsn : Type 0 where
  pub driver_name : Text
  pub dialect : Dialect
  pub normalized : Text

pub data DsnResult : Type 0 where
  dsn : ParsedDsn → DsnResult
  bad_dsn : DsnError → DsnResult

abbrev pub dialect_name : Dialect → Text
dialect_name postgres = codes "postgres"
dialect_name mysql = codes "mysql"

-- The form of the MySQL driver, "user:pass@tcp(host:port)/db", with the encoded query.
unfoldable pub mysql_form : DsnUrl → Text → Text → Text
mysql_form u name encoded =
    (u.username
      ++ (codes ":" ++ (u.password ++ (codes "@tcp(" ++ (u.host ++ (codes ")/" ++ name))))))
    ++ (if is_empty encoded then [] else b'?' ∷ encoded)

-- The package `database/sql` where a database is opened and closed.
pub record OpenApi (D : Type 0) : Type 0 where
  pub open_db : Text → Text → Answer D
  pub ping : D → D × Option Text
  pub close : D → D × Option Text

pub data OpenError : Type 0 where
  dsn_error : DsnError → OpenError
  open_error : Dialect → Text → OpenError
  ping_error : Dialect → Text → OpenError
  dialect_error : OpenError
  migrate_error : Dialect → MigrateError → OpenError

-- A store; an error before there is a database; or an error with the database, closed.
pub data Opened (D : Type 0) : Type 0 where
  opened : SqlStore D → Opened D
  not_opened : OpenError → Opened D
  closed : D → OpenError → Opened D

-- `to_lower` is `strings.ToLower`, `parse_url` is `url.Parse`, and `encode` the query's encoding after
-- its `parseTime` is set to `true`.
module _ (to_lower : Text → Text) (parse_url : Text → Answer DsnUrl) (encode : Text → Text) where
  unfoldable pub parse_mysql : Answer DsnUrl → DsnResult
  unfolding mysql_form
  parse_mysql (failing e) = bad_dsn (unparsed e)
  parse_mysql (done u) =
      let name = trim_prefix u.path (codes "/") in
      if is_empty u.host || is_empty name
      then bad_dsn lacks_host_or_name
      else dsn (record {
        driver_name = codes "mysql";
        dialect = mysql;
        normalized = mysql_form u name (encode u.raw_query);
      })

  unfoldable pub parse_dsn : Text → DsnResult
  unfolding parse_mysql
  parse_dsn text =
      let lower = to_lower text in
      if starts_with lower (codes "postgres://") || starts_with lower (codes "postgresql://")
      then dsn (record { driver_name = codes "pgx"; dialect = postgres; normalized = text })
      else if starts_with lower (codes "mysql://")
      then parse_mysql (parse_url text)
      else bad_dsn (unsupported text)

  module _ {D : Type 0} (api : OpenApi D) (migration : MigrationApi D) where
    abbrev close_with : D → OpenError → Opened D
    close_with db e = closed (api.close db).0 e

    unfoldable pub after_migration : SqlStore D → Dialect → D × Option MigrateError → Opened D
    after_migration s d (db, some e) = close_with db (migrate_error d e)
    after_migration s d (db, none) = opened (record s { db = db })

    unfoldable pub after_store : D → Dialect → Option (SqlStore D) → Opened D
    unfolding after_migration
    after_store db d none = close_with db dialect_error
    after_store db d (some s) = after_migration s d (migrate_locked migration s)

    unfoldable pub after_ping : Dialect → D × Option Text → Opened D
    unfolding after_store
    after_ping d (db, some e) = close_with db (ping_error d e)
    after_ping d (db, none) = after_store db d (new_sql_store (some db) (dialect_name d))

    unfoldable pub after_open : Dialect → Answer D → Opened D
    unfolding after_ping
    after_open d (failing e) = not_opened (open_error d e)
    after_open d (done db) = after_ping d (api.ping db)

    unfoldable pub after_dsn : DsnResult → Opened D
    unfolding after_open
    after_dsn (bad_dsn e) = not_opened (dsn_error e)
    after_dsn (dsn p) = after_open p.dialect (api.open_db p.driver_name p.normalized)

    unfoldable pub open_sql_store : Text → Opened D
    unfolding after_dsn parse_dsn
    open_sql_store text = after_dsn (parse_dsn text)

    -- `Close` of a store; a nil database is closed already.
    unfoldable pub close_store : Option D → Option D × Option Text
    close_store none = (none, none)
    close_store (some db) = let (db', e) = api.close db in (some db', e)

    store_of :
        (db : D) (d : Dialect)
        → new_sql_store (some db) (dialect_name d) ≡ some (record { db = db; dialect = d })
    unfolding new_sql_store dialect_of text_eq
    store_of db postgres = refl
    store_of db mysql = refl

    migrated_dialect :
        (s t : SqlStore D) (d : Dialect) (x : D × Option MigrateError)
        → after_migration s d x ≡ opened t
        → t.dialect ≡ s.dialect
    unfolding after_migration
    migrated_dialect s t d (db, some e) h = cc
    migrated_dialect s t d (db, none) h = cc

    pinged_dialect :
        (t : SqlStore D) (d : Dialect) (x : D × Option Text)
        → after_ping d x ≡ opened t
        → t.dialect ≡ d
    unfolding after_ping after_store
    pinged_dialect t d (db, some e) h = cc
    pinged_dialect t d (db, none) h =
        migrated_dialect (record { db = db; dialect = d }) t d _ (rw (store_of db d) at h)

    opened_dialect :
        (t : SqlStore D) (d : Dialect) (x : Answer D) → after_open d x ≡ opened t → t.dialect ≡ d
    unfolding after_open
    opened_dialect t d (failing e) h = cc
    opened_dialect t d (done db) h = pinged_dialect t d (api.ping db) h

    -- A store that is opened speaks the dialect of its DSN, which has been parsed.
    pub open_sql_store-dialect :
        (text : Text) (t : SqlStore D)
        → open_sql_store text ≡ opened t
        → (p : ParsedDsn) × (parse_dsn text ≡ dsn p) × (t.dialect ≡ p.dialect)
    unfolding open_sql_store after_dsn
    open_sql_store-dialect text t h = of_result (parse_dsn text) refl h
      where
        of_result :
            (r : DsnResult)
            → parse_dsn text ≡ r
            → after_dsn r ≡ opened t
            → (p : ParsedDsn) × (parse_dsn text ≡ dsn p) × (t.dialect ≡ p.dialect)
        of_result (bad_dsn e) same h = cc
        of_result (dsn p) same h =
            (p, same, opened_dialect t p.dialect (api.open_db p.driver_name p.normalized) h)
