-- ===== src/Commands/ControlPlane/Projection.antt =====
-- The projection of the control plane without a database.
use kubebox.Common.{
  Text, codes, is_empty, lookup, pos, Option, none, some, ◌≡◌, ◌≢◌, subst, arith, Bool-cases, inl,
  inr,
}
use kubebox.Memory.{MemoryGovernanceStore, new_memory, get_quota as durable_quota}
use kubebox.Sql.Database.{Database, Answer}
use kubebox.Sql.Store.{SqlStore}
use kubebox.Sql.Migrate.{MigrationApi}
use kubebox.Sql.Open.{DsnUrl, OpenApi, Opened, opened, not_opened, closed}
use kubebox.Sandbox.Types.{CreateRequest, Store, Error, quota_key}
use kubebox.Sandbox.Quotas.{new_store, new_store_with_governance, get_quota}
use kubebox.Sandbox.Mirror.{mirror_row, mirror_held, memory_deps}
use kubebox.Sandbox.Ledger.Histories.{sets_quota}
use kubebox.Sandbox.Mirror.Histories.{
  Calls, none_yet, call, append, new_store-IsMirrored, Calls-IsMirrored,
}
use kubebox.Sandbox.Boundary.Calls.{Calls-IsGoverned}
use kubebox.Sandbox.Boundary.Durable.{memory_kept, new_store-IsGoverned}
use kubebox.Memory.Balance.{IsBalanced}
use kubebox.Commands.ControlPlane.{
  Started, serving_memory, serving_sql, quota_set, store_made, opened_store, open_governance_store,
  start_on, start,
}

module _ (to_lower : Text → Text) (parse_url : Text → Answer DsnUrl) (encode : Text → Text)
    {D T : Type 0} (open_api : OpenApi D) (migration : MigrationApi D) (database : Database D T)
    (marshal : CreateRequest → Text) (sha256_hex : Text → Text) where
  abbrev starting : (Text → Text) → Started D
  starting = start to_lower parse_url encode open_api migration database marshal sha256_hex

  quota-served :
      (addr addr' : Text) (out : Store MemoryGovernanceStore × Option Error)
      (s : Store MemoryGovernanceStore)
      → quota_set {D = D} (serving_memory addr') out ≡ serving_memory addr s
      → out.0 ≡ s
  unfolding quota_set
  quota-served addr addr' (u, some e) s h = cc
  quota-served addr addr' (u, none) s h = cc

  sql-served :
      (addr addr' : Text) (out : Store (SqlStore D) × Option Error)
      (s : Store MemoryGovernanceStore)
      → quota_set {D = D} (serving_sql addr') out ≢ serving_memory addr s
  unfolding quota_set
  sql-served addr addr' (u, some e) s h = cc
  sql-served addr addr' (u, none) s h = cc

  opened-served :
      (o : Opened D) (addr addr' : Text) (s : Store MemoryGovernanceStore)
      → start_on to_lower parse_url encode open_api migration database marshal sha256_hex
          (opened_store o)
          addr'
        ≢ serving_memory addr s
  unfolding start_on store_made new_store_with_governance opened_store
  opened-served (opened t) addr addr' s h = sql-served addr addr' _ s h
  opened-served (not_opened e) addr addr' s h = cc
  opened-served (closed db e) addr addr' s h = cc

  start-Calls :
      (getenv : Text → Text) (addr : Text) (s : Store MemoryGovernanceStore)
      → starting getenv ≡ serving_memory addr s
      → Calls (memory_deps marshal sha256_hex) (new_store (some new_memory)) s
  unfolding start open_governance_store start_on store_made new_store_with_governance
  start-Calls getenv addr s h =
      elim (Bool-cases (is_empty (getenv (codes "KUBEBOX_DATABASE_URL")))) [
        | inl unset ↦
            subst (λ u. Calls (memory_deps marshal sha256_hex) (new_store (some new_memory)) u)
              (quota-served addr _ _ s (rw unset at h))
              (call none_yet (
                sets_quota (new_store (some new_memory)) (codes "default") (codes "local-dev")
                  (pos 50) (omega arith)))
        | inr given ↦ absurd (opened-served _ addr _ s (rw given at h))
      ]

  -- Where the control plane has started without a database, and after any calls on its store (with
  -- limits and numbers of sandboxes in range), the governance store is balanced: the counts of its
  -- quota rows add up to the allocations that are held, and every count lies between zero and its
  -- row's limit; and the read projection is what the governance store holds: every quota that is read
  -- has the limit and the count of the durable row, there is none where there is no row, and every
  -- allocation is on record with its sandbox and status.
  pub start-projects :
      (getenv : Text → Text) (addr : Text) (s u : Store MemoryGovernanceStore)
      → starting getenv ≡ serving_memory addr s
      → Calls (memory_deps marshal sha256_hex) s u
      → (g : MemoryGovernanceStore) × (u.gov ≡ some g)
        × IsBalanced g
        × ((t w : Text) → durable_quota g t w ≡ mirror_row (get_quota u t w))
        × ((id : Text) → lookup id g.allocations ≡ mirror_held (lookup id u.allocations))
  unfolding durable_quota get_quota quota_key
  start-projects getenv addr s u h calls =
      let all = append (memory_deps marshal sha256_hex) (start-Calls getenv addr s h) calls in
      let m = Calls-IsMirrored marshal sha256_hex new_store-IsMirrored all in
      let i =
        Calls-IsGoverned (memory_deps marshal sha256_hex) memory_kept all new_store-IsGoverned in
      let same : i.durable ≡ m.durable = cc (i.boundary, m.boundary) in
      (m.durable, m.boundary, rw same at i.holds, λ t w. m.quotas (quota_key t w), m.allocations)
