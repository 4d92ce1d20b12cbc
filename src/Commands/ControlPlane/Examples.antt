-- ===== src/Commands/ControlPlane/Examples.antt =====
-- A start of the control plane without a database, and a creation.
use kubebox.Common.{[], ◌+◌, ◌^◌, ◌<◌, Text, codes, lookup, pos, none, some, ◌≡◌, refl, arith}
use kubebox.Memory
use kubebox.Memory.{MemoryGovernanceStore, new_memory, get_quota as durable_quota}
use kubebox.Memory.Balance.{IsBalanced}
use kubebox.Sql.Database.{Database, failing, no_rows}
use kubebox.Sql.Migrate.{MigrationApi, lock_value}
use kubebox.Sql.Open.{OpenApi}
use kubebox.Sandbox.Types.{CreateRequest, Store, Deps}
use kubebox.Sandbox.Quotas.{new_store, new_store_with_governance, write_limit, set_quota, get_quota}
use kubebox.Sandbox.Create.{create}
use kubebox.Sandbox.Ledger.Histories.{creates}
use kubebox.Sandbox.Mirror.{mirror_row, mirror_held, memory_deps}
use kubebox.Sandbox.Mirror.Histories.{none_yet, call}
use kubebox.Commands.ControlPlane.{serving_memory, start, open_governance_store}
use kubebox.Commands.ControlPlane.Projection.{start-projects}

-- A database that is never opened.
abbrev no_open : OpenApi Text
no_open = record {
  open_db = λ driver name. failing [];
  ping = λ db. (db, none);
  close = λ db. (db, none);
}

abbrev no_migration : MigrationApi Text
no_migration = record {
  exec_db = λ db q. (db, none);
  open_conn = λ db. (db, none);
  exec = λ db q. (db, none);
  advisory_lock = λ db k. (db, none);
  advisory_unlock = λ db k. db;
  get_lock = λ db. (db, lock_value none);
  release_lock = λ db. db;
  close_conn = λ db. db;
}

abbrev no_database : Database Text Text
no_database = record {
  begin = λ db. failing [];
  exec = λ t q values. (t, failing []);
  query_int = λ t q values. (t, no_rows);
  query_text = λ t q values. (t, no_rows);
  commit = λ db t. (db, none);
  rollback = λ db t. db;
  exec_db = λ db q values. (db, none);
}

abbrev marshal : CreateRequest → Text
marshal req = req.template

abbrev sha256_hex : Text → Text
sha256_hex text = text

abbrev deps : Deps MemoryGovernanceStore
deps = memory_deps marshal sha256_hex

abbrev empty_store : Store MemoryGovernanceStore
empty_store = new_store (some new_memory)

abbrev served_store : Store MemoryGovernanceStore
served_store = (set_quota deps empty_store (codes "default") (codes "local-dev") (pos 50)).0

started :
    start
      (λ t. t)
      (λ t. failing [])
      (λ t. t)
      no_open
      no_migration
      no_database
      marshal
      sha256_hex
      (λ name. [])
    ≡ serving_memory (codes ":8080") served_store
unfolding start open_governance_store new_store_with_governance set_quota lookup
    kubebox.Memory.set_quota new_memory
started = refl

abbrev demand : CreateRequest
demand = record {
  tenant_id = codes "default";
  template = codes "go";
  runtime_class = [];
  ttl_seconds = pos 60;
  resources = none;
}

abbrev created : Store MemoryGovernanceStore
created = (create deps served_store (pos 0) (codes "local-dev") (codes "k") demand).0

room : served_store.sequence + 1 < 2 ^ 64
unfolding set_quota new_store lookup kubebox.Memory.set_quota new_memory write_limit
room = omega arith

start-projects_example :
    (g : MemoryGovernanceStore) × (created.gov ≡ some g)
    × IsBalanced g
    × ((t w : Text) → durable_quota g t w ≡ mirror_row (get_quota created t w))
    × ((id : Text) → lookup id g.allocations ≡ mirror_held (lookup id created.allocations))
start-projects_example =
    start-projects (λ t. t) (λ t. failing []) (λ t. t) no_open no_migration no_database marshal
      sha256_hex (λ name. []) (codes ":8080") served_store created started
      (call none_yet (creates served_store (pos 0) (codes "local-dev") (codes "k") demand room))
