-- ===== src/Memory/Cases.antt =====
-- The outcomes of the methods of `MemoryGovernanceStore`, one by one.
use kubebox.Common.{
  ◌≡◌, ◌⊎◌, refl, inl, inr, Text, text_eq, text_eq_iff, is_empty, Map, lookup, insert,
  lookup-insert, ℤ, pos, ltb_ℤ, leb_ℤ, inc64, dec64, Option, none, some, false, ◌||◌, Bool-cases,
  if◌then◌else◌, arith,
}
use kubebox.Governance.{Time, GovError, quota_below_usage, quota_not_configured, quota_exceeded}
use kubebox.Memory.{
  MemoryGovernanceStore, QuotaRow, AllocationRow, reserved_status, released_status, row_key,
  materialize, set_limit, set_quota, reserve_row, reserve_allocation, release_row, release_found,
  release_allocation,
}

-- A call has written one quota row and, where it writes allocations, these.
pub record Wrote (m m' : MemoryGovernanceStore) (key : Text) (row : QuotaRow)
    (allocations : Map AllocationRow) : Type 0 where
  pub quotas :
      (k : Text) → lookup k m'.quotas ≡ (if text_eq key k then some row else lookup k m.quotas)
  pub kept : m'.allocations ≡ allocations

-- The row of an owner, or the zeros that are written in its place.
abbrev pub row_or_zero : Option QuotaRow → QuotaRow
row_or_zero none = record { concurrent_limit = pos 0; current_count = pos 0 }
row_or_zero (some row) = row

abbrev pub with_limit : QuotaRow → ℤ → QuotaRow
with_limit row limit = record row { concurrent_limit = limit }

set_limit-cases :
    (m : MemoryGovernanceStore) (o : Option QuotaRow) (key : Text) (limit : ℤ)
    → lookup key m.quotas ≡ o
    → let (m', e) = set_limit (materialize o key m) key limit in
      ((e ≡ some quota_below_usage) × Wrote m m' key (row_or_zero o) m.allocations)
      ⊎ ((e ≡ none) × Wrote m m' key (with_limit (row_or_zero o) limit) m.allocations)
unfolding set_limit materialize
set_limit-cases m none key limit h = elim (Bool-cases (ltb_ℤ limit (pos 0))) [
  | inl below ↦
      rw below (inl (refl, record { quotas = λ k. lookup-insert key k _ m.quotas; kept = refl }))
  | inr fits ↦ rw fits (
      inr (
        refl,
        record {
          quotas = λ k. ground (
            arith,
            lookup-insert key k (with_limit (row_or_zero none) limit)
                (insert key (row_or_zero none) m.quotas),
            lookup-insert key k (row_or_zero none) m.quotas,
          );
          kept = refl;
        },
      ))
]
set_limit-cases m (some row) key limit h = elim (Bool-cases (ltb_ℤ limit row.current_count)) [
  | inl below ↦
      rw below
        (inl (refl, record { quotas = λ k. ground (arith, text_eq_iff key k, h); kept = refl }))
  | inr fits ↦
      rw fits (inr (refl, record { quotas = λ k. lookup-insert key k _ m.quotas; kept = refl }))
]

-- A new limit for an owner with a name is written, or the row, added where it is missing, keeps its
-- limit.
pub set_quota-cases :
    (m : MemoryGovernanceStore) (t w : Text) (limit : ℤ)
    → is_empty t || is_empty w || ltb_ℤ limit (pos 0) ≡ false
    → let (m', e) = set_quota m t w limit in
      let key = row_key t w in
      let row = row_or_zero (lookup key m.quotas) in
      ((e ≡ some quota_below_usage) × Wrote m m' key row m.allocations)
      ⊎ ((e ≡ none) × Wrote m m' key (with_limit row limit) m.allocations)
unfolding set_quota
set_quota-cases m t w limit valid = rw valid (set_limit-cases m _ (row_key t w) limit refl)

-- A reservation of a row with room.
pub record IsReserved (m m' : MemoryGovernanceStore) (key id sandbox_id : Text) : Type 0 where
  pub row : QuotaRow
  pub there : lookup key m.quotas ≡ some row
  pub wrote :
      Wrote m m' key
        (record row { current_count = inc64 row.current_count })
        (insert id (record { sandbox_id = sandbox_id; status = reserved_status }) m.allocations)

reserve_row-cases :
    (m : MemoryGovernanceStore) (o : Option QuotaRow) (key id sandbox_id : Text)
    → lookup key m.quotas ≡ o
    → let out = reserve_row o key id sandbox_id m in
      ((e : GovError) × (out ≡ (m, some e)))
      ⊎ ((out.1 ≡ none) × IsReserved m out.0 key id sandbox_id)
unfolding reserve_row
reserve_row-cases m none key id sandbox_id h = inl (quota_not_configured, refl)
reserve_row-cases m (some row) key id sandbox_id h =
    elim (Bool-cases (leb_ℤ row.concurrent_limit row.current_count)) [
      | inl full ↦ rw full (inl (quota_exceeded, refl))
      | inr room ↦ rw room (
          inr (
            refl,
            record {
              row = row;
              there = h;
              wrote = record { quotas = λ k. lookup-insert key k _ m.quotas; kept = refl };
            },
          ))
    ]

-- A reservation is refused and changes nothing, or it counts and records the allocation.
pub reserve_allocation-cases :
    (m : MemoryGovernanceStore) (t w id sandbox_id : Text) (now : Time)
    → let out = reserve_allocation m t w id sandbox_id now in
      ((e : GovError) × (out ≡ (m, some e)))
      ⊎ ((out.1 ≡ none) × IsReserved m out.0 (row_key t w) id sandbox_id)
unfolding reserve_allocation
reserve_allocation-cases m t w id sandbox_id now =
    elim (Bool-cases (is_empty t || is_empty w || is_empty id || is_empty sandbox_id)) [
      | inl bad ↦ rw bad (inl (_, refl))
      | inr good ↦ rw good (reserve_row-cases m _ (row_key t w) id sandbox_id refl)
    ]

-- A release of an allocation that is held, whose row counts it.
pub record IsReleased (m m' : MemoryGovernanceStore) (key id : Text) (a : AllocationRow)
    : Type 0 where
  pub row : QuotaRow
  pub there : lookup key m.quotas ≡ some row
  pub counted : leb_ℤ row.current_count (pos 0) ≡ false
  pub wrote :
      Wrote m m' key
        (record row { current_count = dec64 row.current_count })
        (insert id (record a { status = released_status }) m.allocations)

release_row-cases :
    (m : MemoryGovernanceStore) (o : Option QuotaRow) (key id : Text) (a : AllocationRow)
    → lookup key m.quotas ≡ o
    → let out = release_row o key id a m in
      ((e : GovError) × (out ≡ (m, some e))) ⊎ ((out.1 ≡ none) × IsReleased m out.0 key id a)
unfolding release_row
release_row-cases m none key id a h = inl (_, refl)
release_row-cases m (some row) key id a h = elim (Bool-cases (leb_ℤ row.current_count (pos 0))) [
  | inl corrupt ↦ rw corrupt (inl (_, refl))
  | inr counted ↦ rw counted (
      inr (
        refl,
        record {
          row = row;
          there = h;
          counted = counted;
          wrote = record { quotas = λ k. lookup-insert key k _ m.quotas; kept = refl };
        },
      ))
]

-- A release of an allocation that is on record as held is refused and changes nothing, or it
-- uncounts the allocation.
pub release_allocation-cases :
    (m : MemoryGovernanceStore) (t w id : Text) (now : Time) (a : AllocationRow)
    → lookup id m.allocations ≡ some a
    → text_eq a.status released_status ≡ false
    → let out = release_allocation m t w id now in
      ((e : GovError) × (out ≡ (m, some e)))
      ⊎ ((out.1 ≡ none) × IsReleased m out.0 (row_key t w) id a)
unfolding release_allocation release_found
release_allocation-cases m t w id now a there held =
    elim (Bool-cases (is_empty t || is_empty w || is_empty id)) [
      | inl bad ↦ rw bad (inl (_, refl))
      | inr good ↦ rw (good, there, held) (release_row-cases m _ (row_key t w) id a refl)
    ]
