-- ===== src/Memory/Balance.antt =====
-- The balance of the in-memory governance store: the counts of all rows add up to the allocations
-- that are held, and no count passes its limit.
use kubebox.Common.{
  ℕ, ◌+◌, ◌-◌, ◌^◌, ◌<◌, ◌≡◌, refl, sym, inl, inr, Text, text_eq, text_eq_refl, is_empty, Map,
  lookup, insert, lookup-insert, lookup-insert_self, count_where, count_where-insert, ℤ, pos,
  pos_part, ◌≤ℤ◌, ltb_ℤ, leb_ℤ, inc64, dec64, inc64-pos, dec64-pred, Option, none, some, Bool,
  false, not, ◌||◌, Bool-cases, arith, [], ◌∷◌,
}
use kubebox.Governance.{Time}
use kubebox.Memory.{
  MemoryGovernanceStore, QuotaRow, AllocationRow, reserved_status, released_status, row_key,
  new_memory, materialize, set_limit, set_quota, reserve_row, reserve_allocation, release_row,
  release_found, release_allocation,
}

-- The slots that are taken, over all rows.
pub total : Map QuotaRow → ℕ
total [] = 0
total ((k, row) ∷ m) = pos_part row.current_count + total m

abbrev share : Option QuotaRow → ℕ
share none = 0
share (some row) = pos_part row.current_count

total-insert :
    (k : Text) (row : QuotaRow) (m : Map QuotaRow)
    → total (insert k row m) + share (lookup k m) ≡ total m + pos_part row.current_count
unfolding total insert lookup
total-insert k row [] = omega arith
total-insert k row ((j, w) ∷ m) = ground (arith, total-insert k row m)

abbrev pub is_held : AllocationRow → Bool
is_held a = not (text_eq a.status released_status)

pub record IsCovered (row : QuotaRow) : Type 0 where
  pub counted : row.current_count ≡ pos (pos_part row.current_count)
  pub within : row.current_count ≤ℤ row.concurrent_limit
  pub int : row.concurrent_limit ≤ℤ pos (2 ^ 63 - 1)

abbrev pub Covered : Option QuotaRow → Type 0
Covered none = Unit {0}
Covered (some row) = IsCovered row

pub record IsBalanced (m : MemoryGovernanceStore) : Type 0 where
  pub balance : total m.quotas ≡ count_where is_held m.allocations
  pub rows : (key : Text) → Covered (lookup key m.quotas)

Covered-insert :
    (m : Map QuotaRow) (key : Text) (row : QuotaRow)
    → IsCovered row
    → ((k : Text) → Covered (lookup k m))
    → (k : Text) → Covered (lookup k (insert key row m))
Covered-insert m key row c h k =
    rw lookup-insert (elim (Bool-cases (text_eq key k)) [ inl e ↦ rw e c | inr e ↦ rw e (h k) ])

-- A row whose count stays may be written without a change to the balance.
write-IsBalanced :
    (m : MemoryGovernanceStore) (key : Text) (row : QuotaRow)
    → share (lookup key m.quotas) ≡ pos_part row.current_count
    → IsCovered row
    → IsBalanced m
    → IsBalanced (record m { quotas = insert key row m.quotas })
write-IsBalanced m key row e c b = record {
  balance = omega (arith, total-insert key row m.quotas, b.balance);
  rows = Covered-insert m.quotas key row c b.rows;
}

materialize-IsBalanced :
    (m : MemoryGovernanceStore) (o : Option QuotaRow) (key : Text)
    → o ≡ lookup key m.quotas
    → IsBalanced m
    → let r = materialize o key m in IsBalanced r.0 × (lookup key r.0.quotas ≡ some r.1)
unfolding materialize
materialize-IsBalanced m (some row) key e b = (b, sym e)
materialize-IsBalanced m none key e b = (
  write-IsBalanced m key _ (rw (← e))
      (record { counted = refl; within = omega arith; int = omega arith }) b,
  lookup-insert_self key _ m.quotas,
)

set_limit-IsBalanced :
    (r : MemoryGovernanceStore × QuotaRow) (key : Text) (limit : ℤ)
    → IsBalanced r.0
    → lookup key r.0.quotas ≡ some r.1
    → limit ≤ℤ pos (2 ^ 63 - 1)
    → IsBalanced (set_limit r key limit).0
unfolding set_limit
set_limit-IsBalanced (m, row) key limit b e int =
    elim (Bool-cases (ltb_ℤ limit row.current_count)) [
      | inl below ↦ rw below b
      | inr covers ↦
          let c : IsCovered row = rw e at (b.rows key) in
          rw covers (
            write-IsBalanced m key _ (rw e)
              (record { counted = c.counted; within = ground arith; int = int }) b)
    ]

pub set_quota-IsBalanced :
    (m : MemoryGovernanceStore) (tenant_id owner_id : Text) (limit : ℤ)
    → limit ≤ℤ pos (2 ^ 63 - 1)
    → IsBalanced m
    → IsBalanced (set_quota m tenant_id owner_id limit).0
unfolding set_quota
set_quota-IsBalanced m t w limit int b =
    let r = materialize-IsBalanced m _ (row_key t w) refl b in
    elim (Bool-cases (is_empty t || is_empty w || ltb_ℤ limit (pos 0))) [
      | inl bad ↦ rw bad b
      | inr good ↦ rw good (set_limit-IsBalanced _ (row_key t w) limit r.0 r.1 int)
    ]

inc-IsCovered :
    (row : QuotaRow)
    → IsCovered row
    → leb_ℤ row.concurrent_limit row.current_count ≡ false
    → (inc64 row.current_count ≡ pos (pos_part row.current_count + 1))
      × IsCovered (record row { current_count = inc64 row.current_count })
inc-IsCovered row c room =
    let up : inc64 row.current_count ≡ pos (pos_part row.current_count + 1) =
      rw c.counted
        (inc64-pos (pos_part row.current_count) (ground (arith, c.counted, c.within, c.int))) in
    (
      up,
      record {
        counted = rw up;
        within = rw up (ground (arith, c.counted, c.within, c.int));
        int = c.int;
      },
    )

dec-IsCovered :
    (row : QuotaRow)
    → IsCovered row
    → leb_ℤ row.current_count (pos 0) ≡ false
    → (dec64 row.current_count ≡ pos (pos_part row.current_count - 1))
      × (0 < pos_part row.current_count)
      × IsCovered (record row { current_count = dec64 row.current_count })
dec-IsCovered row c some_held =
    let positive : 0 < pos_part row.current_count = ground (arith, c.counted) in
    let down : dec64 row.current_count ≡ pos (pos_part row.current_count - 1) = rw c.counted (
      dec64-pred (pos_part row.current_count) positive
        (ground (arith, c.counted, c.within, c.int))) in
    (
      down,
      positive,
      record {
        counted = rw down;
        within = rw down (ground (arith, c.counted, c.within, c.int));
        int = c.int;
      },
    )

reserved_is_held : text_eq reserved_status released_status ≡ false
unfolding text_eq
reserved_is_held = refl

reserve_row-IsBalanced :
    (m : MemoryGovernanceStore) (o : Option QuotaRow) (key id sandbox_id : Text)
    → o ≡ lookup key m.quotas
    → lookup id m.allocations ≡ none
    → IsBalanced m
    → IsBalanced (reserve_row o key id sandbox_id m).0
unfolding reserve_row
reserve_row-IsBalanced m none key id sandbox_id e fresh b = b
reserve_row-IsBalanced m (some row) key id sandbox_id e fresh b =
    elim (Bool-cases (leb_ℤ row.concurrent_limit row.current_count)) [
      | inl full ↦ rw full b
      | inr room ↦
          let c : IsCovered row = rw (← e) at (b.rows key) in
          let (up, c') = inc-IsCovered row c room in
          let a : AllocationRow = record { sandbox_id = sandbox_id; status = reserved_status } in
          rw room (record {
            balance = ground (
              arith,
              b.balance,
              up,
              total-insert key (record row { current_count = inc64 row.current_count }) m.quotas,
              e,
              fresh,
              count_where-insert is_held id a m.allocations,
              reserved_is_held,
            );
            rows = Covered-insert m.quotas key _ c' b.rows;
          })
    ]

release_row-IsBalanced :
    (m : MemoryGovernanceStore) (o : Option QuotaRow) (key id : Text) (a : AllocationRow)
    → o ≡ lookup key m.quotas
    → lookup id m.allocations ≡ some a
    → text_eq a.status released_status ≡ false
    → IsBalanced m
    → IsBalanced (release_row o key id a m).0
unfolding release_row
release_row-IsBalanced m none key id a e at held b = b
release_row-IsBalanced m (some row) key id a e at held b =
    elim (Bool-cases (leb_ℤ row.current_count (pos 0))) [
      | inl none_held ↦ rw none_held b
      | inr some_held ↦
          let c : IsCovered row = rw (← e) at (b.rows key) in
          let (down, positive, c') = dec-IsCovered row c some_held in
          rw some_held (record {
            balance = ground (
              arith,
              b.balance,
              down,
              positive,
              total-insert key (record row { current_count = dec64 row.current_count }) m.quotas,
              e,
              at,
              held,
              count_where-insert is_held id (record a { status = released_status }) m.allocations,
              text_eq_refl released_status,
            );
            rows = Covered-insert m.quotas key _ c' b.rows;
          })
    ]

release_found-IsBalanced :
    (m : MemoryGovernanceStore) (o : Option AllocationRow) (key id : Text)
    → o ≡ lookup id m.allocations
    → IsBalanced m
    → IsBalanced (release_found o key id m).0
unfolding release_found
release_found-IsBalanced m none key id e b = b
release_found-IsBalanced m (some a) key id e b =
    elim (Bool-cases (text_eq a.status released_status)) [
      | inl done ↦ rw done b
      | inr held ↦ rw held (release_row-IsBalanced m _ key id a refl (sym e) held b)
    ]

pub reserve_allocation-IsBalanced :
    (m : MemoryGovernanceStore) (t w id sandbox_id : Text) (now : Time)
    → lookup id m.allocations ≡ none
    → IsBalanced m
    → IsBalanced (reserve_allocation m t w id sandbox_id now).0
unfolding reserve_allocation
reserve_allocation-IsBalanced m t w id sandbox_id now fresh b =
    elim (Bool-cases (is_empty t || is_empty w || is_empty id || is_empty sandbox_id)) [
      | inl bad ↦ rw bad b
      | inr good ↦ rw good (reserve_row-IsBalanced m _ (row_key t w) id sandbox_id refl fresh b)
    ]

pub release_allocation-IsBalanced :
    (m : MemoryGovernanceStore) (t w id : Text) (now : Time)
    → IsBalanced m
    → IsBalanced (release_allocation m t w id now).0
unfolding release_allocation
release_allocation-IsBalanced m t w id now b =
    elim (Bool-cases (is_empty t || is_empty w || is_empty id)) [
      | inl bad ↦ rw bad b
      | inr good ↦ rw good (release_found-IsBalanced m _ (row_key t w) id refl b)
    ]

pub new_memory-IsBalanced : IsBalanced new_memory
unfolding new_memory total count_where lookup
new_memory-IsBalanced = record { balance = refl; rows = λ k. tt }
