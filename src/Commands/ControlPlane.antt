-- ===== src/Commands/ControlPlane.antt =====
-- cmd/kubebox/main.go: the control plane up to the server.
pub mod Projection
mod Examples
use kubebox.Common.{Text, codes, is_empty, pos, Option, none, some, if◌then◌else◌}
use kubebox.Governance.{GovernanceStore}
use kubebox.Memory.{MemoryGovernanceStore, new_memory, memory_api}
use kubebox.Sql.Database.{Database, Answer}
use kubebox.Sql.Store.{SqlStore, sql_api}
use kubebox.Sql.Migrate.{MigrationApi}
use kubebox.Sql.Open.{
  DsnUrl, OpenApi, OpenError, Opened, opened, not_opened, closed, open_sql_store,
}
use kubebox.Sandbox.Types.{CreateRequest, Store, Error, Deps}
use kubebox.Sandbox.Quotas.{new_store_with_governance, set_quota}

-- What `openGovernanceStore` returns; of an error `main` needs no more than that there is one.
pub data Governance (D : Type 0) : Type 0 where
  in_memory : MemoryGovernanceStore → Governance D
  in_sql : SqlStore D → Governance D
  open_failed : OpenError → Governance D

-- Where `main` gets to: `log.Fatal`, or the server on an address with the store behind its handler.
pub data Started (D : Type 0) : Type 0 where
  fatal_open : OpenError → Started D
  fatal_store : Started D
  fatal_quota : Error → Started D
  serving_memory : Text → Store MemoryGovernanceStore → Started D
  serving_sql : Text → Store (SqlStore D) → Started D

abbrev pub addr_of : (Text → Text) → Text
addr_of getenv =
    let addr = getenv (codes "KUBEBOX_ADDR") in if is_empty addr then codes ":8080" else addr

abbrev deps_of : {G : Type 0} → GovernanceStore G → (CreateRequest → Text) → (Text → Text) → Deps G
deps_of api marshal sha256_hex = record { api = api; marshal = marshal; sha256_hex = sha256_hex }

module _ {D : Type 0} where
  unfoldable pub quota_set :
      {G : Type 0} → (Store G → Started D) → Store G × Option Error → Started D
  quota_set serving (s, some e) = fatal_quota e
  quota_set serving (s, none) = serving s

  -- `SetQuota` of the development owner, whose limit is 50.
  store_made : {G : Type 0} → Deps G → (Store G → Started D) → Option (Store G) → Started D
  unfolding quota_set
  store_made deps serving none = fatal_store
  store_made deps serving (some s) =
      quota_set serving (set_quota deps s (codes "default") (codes "local-dev") (pos 50))

  opened_store : Opened D → Governance D
  opened_store (opened s) = in_sql s
  opened_store (not_opened e) = open_failed e
  opened_store (closed db e) = open_failed e

module _ (to_lower : Text → Text) (parse_url : Text → Answer DsnUrl) (encode : Text → Text)
    {D T : Type 0} (open_api : OpenApi D) (migration : MigrationApi D) (database : Database D T)
    (marshal : CreateRequest → Text) (sha256_hex : Text → Text) where
  unfoldable pub open_governance_store : (Text → Text) → Governance D
  unfolding opened_store
  open_governance_store getenv =
      let dsn = getenv (codes "KUBEBOX_DATABASE_URL") in
      if is_empty dsn
      then in_memory new_memory
      else opened_store (open_sql_store to_lower parse_url encode open_api migration dsn)

  start_on : Governance D → Text → Started D
  unfolding store_made
  start_on (open_failed e) addr = fatal_open e
  start_on (in_memory g) addr =
      store_made (deps_of memory_api marshal sha256_hex) (serving_memory addr)
        (new_store_with_governance (some g))
  start_on (in_sql g) addr =
      store_made (deps_of (sql_api database) marshal sha256_hex) (serving_sql addr)
        (new_store_with_governance (some g))

  unfoldable pub start : (Text → Text) → Started D
  unfolding start_on
  start getenv = start_on (open_governance_store getenv) (addr_of getenv)
