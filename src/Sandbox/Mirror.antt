-- ===== src/Sandbox/Mirror.antt =====
-- The read projection of internal/sandbox/service.go over the durable boundary that
-- cmd/kubebox/main.go gives the store without a database, `MemoryGovernanceStore`.
pub mod SetQuota
pub mod Create
pub mod Release
pub mod Histories
use kubebox.Common.{
  Text, Map, text_eq, lookup, insert, lookup-insert, Option, none, some, ◌≡◌, refl, true, false,
  Bool-cases, inl, inr, if◌then◌else◌, arith,
}
use kubebox.Memory.{
  MemoryGovernanceStore, QuotaRow, AllocationRow, reserved_status, released_status, memory_api,
}
use kubebox.Sandbox.Types.{
  AllocationStatus, reserved, released, Quota, Allocation, CreateRequest, Store, Deps,
}

-- The durable rows that the projection's entries stand for.
abbrev pub row_of : Quota → QuotaRow
row_of q = record { concurrent_limit = q.concurrent_limit; current_count = q.current_count }

abbrev pub mirror_row : Option Quota → Option QuotaRow
mirror_row none = none
mirror_row (some q) = some (row_of q)

abbrev pub status_of : AllocationStatus → Text
status_of reserved = reserved_status
status_of released = released_status

abbrev pub held_of : Allocation → AllocationRow
held_of a = record { sandbox_id = a.sandbox_id; status = status_of a.status }

abbrev pub mirror_held : Option Allocation → Option AllocationRow
mirror_held none = none
mirror_held (some a) = some (held_of a)

abbrev pub SameQuotas : Map QuotaRow → Map Quota → Type 0
SameQuotas rows quotas = (k : Text) → lookup k rows ≡ mirror_row (lookup k quotas)

abbrev pub SameAllocations : Map AllocationRow → Map Allocation → Type 0
SameAllocations rows allocations =
    (id : Text) → lookup id rows ≡ mirror_held (lookup id allocations)

-- The boundary of a store holds what its projection shows.
pub record IsMirrored (s : Store MemoryGovernanceStore) : Type 0 where
  pub durable : MemoryGovernanceStore
  pub boundary : s.gov ≡ some durable
  pub quotas : SameQuotas durable.quotas s.quotas
  pub allocations : SameAllocations durable.allocations s.allocations

-- The same row, written on both sides.
pub written-SameQuotas :
    (rows rows' : Map QuotaRow) (quotas quotas' : Map Quota) (key : Text) (q : Quota)
    → ((k : Text) → lookup k rows' ≡ (if text_eq key k then some (row_of q) else lookup k rows))
    → ((k : Text) → lookup k quotas' ≡ (if text_eq key k then some q else lookup k quotas))
    → SameQuotas rows quotas
    → SameQuotas rows' quotas'
written-SameQuotas rows rows' quotas quotas' key q durable projected same k =
    rw (durable k, projected k)
      (elim (Bool-cases (text_eq key k)) [ inl e ↦ rw e refl | inr e ↦ rw e (same k) ])

-- The same allocation, written on both sides.
pub insert-SameAllocations :
    (rows : Map AllocationRow) (allocations : Map Allocation) (id : Text) (a : Allocation)
    → SameAllocations rows allocations
    → SameAllocations (insert id (held_of a) rows) (insert id a allocations)
insert-SameAllocations rows allocations id a same k =
    rw (lookup-insert id k (held_of a) rows, lookup-insert id k a allocations)
      (elim (Bool-cases (text_eq id k)) [ inl e ↦ rw e refl | inr e ↦ rw e (same k) ])

-- A durable row stands for a row of the projection.
pub mirror_row-some :
    (o : Option Quota) (row : QuotaRow)
    → mirror_row o ≡ some row
    → (q : Quota) × (o ≡ some q) × (row ≡ row_of q)
mirror_row-some none row h = cc
mirror_row-some (some q) row h = (q, refl, cc)

-- What the store calls, over this boundary.
abbrev pub memory_deps : (CreateRequest → Text) → (Text → Text) → Deps MemoryGovernanceStore
memory_deps marshal sha256_hex = record {
  api = memory_api;
  marshal = marshal;
  sha256_hex = sha256_hex;
}
