-- ===== src/Sandbox/Quotas.antt =====
-- The quota ledger of internal/sandbox/service.go: `SetQuota`, `GetQuota` and
-- `releaseAllocationLocked`. A method takes the store and returns the store after the call with its
-- result; `time.Now().UTC()` is the argument `now`.
use kubebox.Common.{
  [], Text, is_empty, lookup, insert, ℤ, pos, ltb_ℤ, leb_ℤ, dec64, Option, none, some, ◌||◌,
  if◌then◌else◌,
}
use kubebox.Governance.{Time, GovError}
use kubebox.Sandbox.Types.{
  AllocationStatus, reserved, released, Quota, Allocation, Store, Error, invalid_request,
  quota_below_usage, quota_corrupt, allocation_not_found, Deps, quota_key, map_gov_error,
}

module _ {G : Type 0} where
  unfoldable pub new_store : Option G → Store G
  new_store gov = record {
    sequence = 0;
    sandboxes = [];
    allocations = [];
    idempotency = [];
    quotas = [];
    gov = gov;
  }

  -- A nil boundary is an error, which builds no store.
  unfoldable pub new_store_with_governance : Option G → Option (Store G)
  unfolding new_store
  new_store_with_governance none = none
  new_store_with_governance (some g) = some (new_store (some g))

  -- The row of an owner, which is added with zeros where there is none.
  unfoldable pub materialize : Option Quota → Text → Text → Text → Store G → Store G × Quota
  materialize (some q) key tenant_id owner_id s = (s, q)
  materialize none key tenant_id owner_id s =
      let q : Quota = record {
        tenant_id = tenant_id;
        owner_id = owner_id;
        concurrent_limit = pos 0;
        current_count = pos 0;
      } in
      (record s { quotas = insert key q s.quotas }, q)

  unfoldable pub write_count : Store G → Text → Quota → ℤ → Store G
  write_count s key q count = record s {
    quotas = insert key (record q { current_count = count }) s.quotas;
  }

  unfoldable pub write_limit : Store G → Text → Quota → ℤ → Store G
  write_limit s key q limit = record s {
    quotas = insert key (record q { concurrent_limit = limit }) s.quotas;
  }

  unfoldable pub write_released : Store G → Text → Allocation → Store G
  write_released s id a = record s {
    allocations = insert id (record a { status = released }) s.allocations;
  }

  unfoldable pub get_quota : Store G → Text → Text → Option Quota
  get_quota s tenant_id owner_id = lookup (quota_key tenant_id owner_id) s.quotas

  -- What `SetQuota` does with the answer of the durable boundary.
  unfoldable pub after_set : Option GovError → Store G → Text → Quota → ℤ → Store G × Option Error
  after_set (some e) s key q limit = (s, some (map_gov_error e))
  after_set none s key q limit = (write_limit s key q limit, none)

  -- The release of a reserved allocation without a durable boundary.
  unfoldable pub release_in_memory :
      Option Quota → Text → Text → Allocation → Store G → Store G × Option Error
  release_in_memory none key id a s = (s, some quota_corrupt)
  release_in_memory (some q) key id a s =
      if leb_ℤ q.current_count (pos 0)
      then (s, some quota_corrupt)
      else (write_count (write_released s id a) key q (dec64 q.current_count), none)

  -- The read projection follows a durable release where it has a row to follow with.
  unfoldable pub sync_projection : Option Quota → Text → Store G → Store G
  sync_projection none key s = s
  sync_projection (some q) key s =
      if ltb_ℤ (pos 0) q.current_count then write_count s key q (dec64 q.current_count) else s

  unfoldable pub after_release :
      Option GovError → Option Quota → Text → Text → Allocation → Store G → Store G × Option Error
  unfolding sync_projection
  after_release (some e) q key id a s = (s, some (map_gov_error e))
  after_release none q key id a s = (sync_projection q key (write_released s id a), none)

module _ {G : Type 0} (deps : Deps G) where
  unfoldable pub set_quota_row :
      Option G → Store G → Text → Quota → Text → Text → ℤ → Store G × Option Error
  unfolding after_set
  set_quota_row none s key q tenant_id owner_id limit =
      if ltb_ℤ limit q.current_count
      then (s, some quota_below_usage)
      else (write_limit s key q limit, none)
  set_quota_row (some g) s key q tenant_id owner_id limit =
      let (g', e) = deps.api.set_quota g tenant_id owner_id limit in
      after_set e (record s { gov = some g' }) key q limit

  unfoldable pub set_quota : Store G → Text → Text → ℤ → Store G × Option Error
  unfolding materialize set_quota_row
  set_quota s tenant_id owner_id limit =
      if is_empty tenant_id || is_empty owner_id || ltb_ℤ limit (pos 0)
      then (s, some invalid_request)
      else (let key = quota_key tenant_id owner_id in
          let (s', q) = materialize (lookup key s.quotas) key tenant_id owner_id s in
          set_quota_row s'.gov s' key q tenant_id owner_id limit)

  unfoldable pub release_reserved :
      Option G → Text → Allocation → Store G → Time → Store G × Option Error
  unfolding release_in_memory after_release
  release_reserved none id a s now =
      let key = quota_key a.tenant_id a.owner_id in
      release_in_memory (lookup key s.quotas) key id a s
  release_reserved (some g) id a s now =
      let key = quota_key a.tenant_id a.owner_id in
      let (g', e) = deps.api.release_allocation g a.tenant_id a.owner_id id now in
      after_release e (lookup key s.quotas) key id a (record s { gov = some g' })

  unfoldable pub release_known :
      AllocationStatus → Text → Allocation → Store G → Time → Store G × Option Error
  unfolding release_reserved
  release_known released id a s now = (s, none)
  release_known reserved id a s now = release_reserved s.gov id a s now

  unfoldable pub release_found : Option Allocation → Text → Store G → Time → Store G × Option Error
  unfolding release_known
  release_found none id s now = (s, some allocation_not_found)
  release_found (some a) id s now = release_known a.status id a s now

  unfoldable pub release_allocation : Store G → Text → Time → Store G × Option Error
  unfolding release_found
  release_allocation s allocation_id now =
      release_found (lookup allocation_id s.allocations) allocation_id s now
