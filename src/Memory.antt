-- ===== src/Memory.antt =====
-- internal/persistence/memory.go: the governance store without a database. The mutex makes each
-- method one step; the clock and context arguments are not read.
pub mod Balance
pub mod Histories
pub mod Cases
pub mod Unused
mod Examples
use kubebox.Common.{
  [], ◌∷◌, ◌++◌, Text, codes, text_eq, is_empty, Map, lookup, insert, ℤ, pos, ltb_ℤ, leb_ℤ, inc64,
  dec64, Option, none, some, Bool, ◌||◌, if◌then◌else◌,
}
use kubebox.Governance.{
  Time, GovError, invalid_argument, quota_exceeded, quota_below_usage, quota_not_configured,
  quota_corrupt, allocation_not_found, GovernanceStore,
}

pub record QuotaRow : Type 0 where
  pub concurrent_limit : ℤ
  pub current_count : ℤ

pub record AllocationRow : Type 0 where
  pub sandbox_id : Text
  pub status : Text

pub record IdempotencyRow : Type 0 where
  pub owner_id : Text
  pub request_hash : Text
  pub status : Text
  pub resource_id : Text

pub record MemoryGovernanceStore : Type 0 where
  pub quotas : Map QuotaRow
  pub allocations : Map AllocationRow
  pub idempotency : Map IdempotencyRow

abbrev pub reserved_status : Text
reserved_status = codes "RESERVED"

abbrev pub released_status : Text
released_status = codes "RELEASED"

abbrev pub pending_status : Text
pending_status = codes "PENDING"

abbrev pub row_key : Text → Text → Text
row_key a b = a ++ (0 ∷ b)

unfoldable pub new_memory : MemoryGovernanceStore
new_memory = record { quotas = []; allocations = []; idempotency = [] }

-- The row of an owner, which is added with zeros where there is none.
materialize : Option QuotaRow → Text → MemoryGovernanceStore → MemoryGovernanceStore × QuotaRow
materialize (some row) key m = (m, row)
materialize none key m =
    let row : QuotaRow = record { concurrent_limit = pos 0; current_count = pos 0 } in
    (record m { quotas = insert key row m.quotas }, row)

set_limit : MemoryGovernanceStore × QuotaRow → Text → ℤ → MemoryGovernanceStore × Option GovError
set_limit (m, row) key limit =
    if ltb_ℤ limit row.current_count
    then (m, some quota_below_usage)
    else (record m { quotas = insert key (record row { concurrent_limit = limit }) m.quotas }, none)

unfoldable pub set_quota :
    MemoryGovernanceStore → Text → Text → ℤ → MemoryGovernanceStore × Option GovError
unfolding materialize set_limit
set_quota m tenant_id owner_id limit =
    if is_empty tenant_id || is_empty owner_id || ltb_ℤ limit (pos 0)
    then (m, some invalid_argument)
    else (let key = row_key tenant_id owner_id in
        set_limit (materialize (lookup key m.quotas) key m) key limit)

unfoldable pub get_quota : MemoryGovernanceStore → Text → Text → Option QuotaRow
get_quota m tenant_id owner_id = lookup (row_key tenant_id owner_id) m.quotas

reserve_row :
    Option QuotaRow
    → Text
    → Text
    → Text
    → MemoryGovernanceStore
    → MemoryGovernanceStore × Option GovError
reserve_row none key allocation_id sandbox_id m = (m, some quota_not_configured)
reserve_row (some row) key allocation_id sandbox_id m =
    if leb_ℤ row.concurrent_limit row.current_count then (m, some quota_exceeded) else (
      record m {
        quotas = insert key (record row { current_count = inc64 row.current_count }) m.quotas;
        allocations =
            insert allocation_id (record { sandbox_id = sandbox_id; status = reserved_status })
              m.allocations;
      },
      none,
    )

unfoldable pub reserve_allocation :
    MemoryGovernanceStore
    → Text
    → Text
    → Text
    → Text
    → Time
    → MemoryGovernanceStore × Option GovError
unfolding reserve_row
reserve_allocation m tenant_id owner_id allocation_id sandbox_id now =
    if is_empty tenant_id || is_empty owner_id || is_empty allocation_id || is_empty sandbox_id
    then (m, some invalid_argument)
    else (let key = row_key tenant_id owner_id in
        reserve_row (lookup key m.quotas) key allocation_id sandbox_id m)

release_row :
    Option QuotaRow
    → Text
    → Text
    → AllocationRow
    → MemoryGovernanceStore
    → MemoryGovernanceStore × Option GovError
release_row none key allocation_id a m = (m, some quota_corrupt)
release_row (some row) key allocation_id a m =
    if leb_ℤ row.current_count (pos 0) then (m, some quota_corrupt) else (
      record m {
        quotas = insert key (record row { current_count = dec64 row.current_count }) m.quotas;
        allocations = insert allocation_id (record a { status = released_status }) m.allocations;
      },
      none,
    )

release_found :
    Option AllocationRow
    → Text
    → Text
    → MemoryGovernanceStore
    → MemoryGovernanceStore × Option GovError
unfolding release_row
release_found none key allocation_id m = (m, some allocation_not_found)
release_found (some a) key allocation_id m =
    if text_eq a.status released_status
    then (m, none)
    else release_row (lookup key m.quotas) key allocation_id a m

unfoldable pub release_allocation :
    MemoryGovernanceStore → Text → Text → Text → Time → MemoryGovernanceStore × Option GovError
unfolding release_found
release_allocation m tenant_id owner_id allocation_id now =
    if is_empty tenant_id || is_empty owner_id || is_empty allocation_id
    then (m, some invalid_argument)
    else release_found (lookup allocation_id m.allocations) (row_key tenant_id owner_id)
        allocation_id m

claim_key :
    Option IdempotencyRow → Text → Text → Text → MemoryGovernanceStore → MemoryGovernanceStore
claim_key (some row) key owner_id request_hash m = m
claim_key none key owner_id request_hash m = record m {
  idempotency =
      insert key
        (record {
          owner_id = owner_id;
          request_hash = request_hash;
          status = pending_status;
          resource_id = [];
        })
        m.idempotency;
}

unfoldable pub insert_idempotency_pending :
    MemoryGovernanceStore
    → Text
    → Text
    → Text
    → Text
    → Time
    → MemoryGovernanceStore × Option GovError
unfolding claim_key
insert_idempotency_pending m tenant_id owner_id key request_hash expires_at =
    if is_empty tenant_id || is_empty owner_id || is_empty key || is_empty request_hash
    then (m, some invalid_argument)
    else (let fk = row_key tenant_id key in
        (claim_key (lookup fk m.idempotency) fk owner_id request_hash m, none))

-- `MemoryGovernanceStore` as a `GovernanceStore`.
abbrev pub memory_api : GovernanceStore MemoryGovernanceStore
memory_api = record {
  set_quota = set_quota;
  reserve_allocation = reserve_allocation;
  release_allocation = release_allocation;
  insert_idempotency_pending = insert_idempotency_pending;
}
