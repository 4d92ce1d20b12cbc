-- ===== src/Memory/Unused.antt =====
-- Allocation ids that `MemoryGovernanceStore` has not seen.
use kubebox.Common.{
  Text, text_eq, text_eq_iff, lookup, lookup-insert, ℤ, Option, none, some, ◌≡◌, ◌≢◌, refl, false,
  Bool-cases, inl, inr, arith,
}
use kubebox.Governance.{Time}
use kubebox.Memory.{
  MemoryGovernanceStore, AllocationRow, QuotaRow, row_key, materialize, set_limit, set_quota,
  reserve_row, reserve_allocation, release_row, release_found, release_allocation, reserved_status,
  released_status,
}

abbrev pub IsUnused : MemoryGovernanceStore → Text → Type 0
IsUnused m id = lookup id m.allocations ≡ none

materialize_unused :
    (m : MemoryGovernanceStore) (o : Option QuotaRow) (key : Text)
    → (materialize o key m).0.allocations ≡ m.allocations
unfolding materialize
materialize_unused m none key = refl
materialize_unused m (some row) key = refl

pub set_quota-IsUnused :
    (m : MemoryGovernanceStore) (t w id : Text) (limit : ℤ)
    → IsUnused m id
    → IsUnused (set_quota m t w limit).0 id
unfolding set_quota set_limit
set_quota-IsUnused m t w id limit h =
    ground (arith, h, materialize_unused m (lookup (row_key t w) m.quotas) (row_key t w))

reserve_row-IsUnused :
    (m : MemoryGovernanceStore) (o : Option QuotaRow) (key j id sandbox_id : Text)
    → text_eq j id ≡ false
    → IsUnused m id
    → IsUnused (reserve_row o key j sandbox_id m).0 id
unfolding reserve_row
reserve_row-IsUnused m none key j id sandbox_id d h = h
reserve_row-IsUnused m (some row) key j id sandbox_id d h =
    let a : AllocationRow = record { sandbox_id = sandbox_id; status = reserved_status } in
    ground (arith, lookup-insert j id a m.allocations, d, h)

pub reserve_allocation-IsUnused :
    (m : MemoryGovernanceStore) (t w j id sandbox_id : Text) (now : Time)
    → j ≢ id
    → IsUnused m id
    → IsUnused (reserve_allocation m t w j sandbox_id now).0 id
unfolding reserve_allocation
reserve_allocation-IsUnused m t w j id sandbox_id now d h =
    let differs : text_eq j id ≡ false = ground (arith, text_eq_iff j id, d) in
    ground (
      arith,
      h,
      reserve_row-IsUnused m (lookup (row_key t w) m.quotas) (row_key t w) j id sandbox_id differs,
    )

release_row-IsUnused :
    (m : MemoryGovernanceStore) (o : Option QuotaRow) (key j id : Text) (a : AllocationRow)
    → text_eq j id ≡ false
    → IsUnused m id
    → IsUnused (release_row o key j a m).0 id
unfolding release_row
release_row-IsUnused m none key j id a d h = h
release_row-IsUnused m (some row) key j id a d h =
    let b : AllocationRow = record a { status = released_status } in
    ground (arith, lookup-insert j id b m.allocations, d, h)

release_found-IsUnused :
    (m : MemoryGovernanceStore) (o : Option AllocationRow) (key j id : Text)
    → lookup j m.allocations ≡ o
    → IsUnused m id
    → IsUnused (release_found o key j m).0 id
unfolding release_found
release_found-IsUnused m none key j id there h = h
release_found-IsUnused m (some a) key j id there h = elim (Bool-cases (text_eq j id)) [
  | inl same ↦ absurd (ground (arith, text_eq_iff j id, same, there, h))
  | inr differs ↦ ground (arith, h, release_row-IsUnused m (lookup key m.quotas) key j id a differs)
]

pub release_allocation-IsUnused :
    (m : MemoryGovernanceStore) (t w j id : Text) (now : Time)
    → IsUnused m id
    → IsUnused (release_allocation m t w j now).0 id
unfolding release_allocation
release_allocation-IsUnused m t w j id now h =
    ground (arith, h, release_found-IsUnused m (lookup j m.allocations) (row_key t w) j id refl)
