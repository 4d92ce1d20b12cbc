-- ===== src/Memory/Histories.antt =====
-- Histories of calls on the in-memory governance store.
use kubebox.Common.{◌-◌, ◌^◌, ◌≡◌, Text, lookup, ℤ, pos, ◌≤ℤ◌, none, arith, subst}
use kubebox.Governance.{Time}
use kubebox.Memory.{
  MemoryGovernanceStore, new_memory, set_quota, reserve_allocation, release_allocation,
  insert_idempotency_pending,
}
use kubebox.Memory.Balance.{
  new_memory-IsBalanced, Covered, IsBalanced, set_quota-IsBalanced, reserve_allocation-IsBalanced,
  release_allocation-IsBalanced,
}

-- A call of the governance boundary; a reservation is for an allocation id that is not in use.
pub data Step : MemoryGovernanceStore → MemoryGovernanceStore → Type 0 where
  sets_quota :
      (m : MemoryGovernanceStore) (t w : Text) (limit : ℤ)
      → limit ≤ℤ pos (2 ^ 63 - 1)
      → Step m (set_quota m t w limit).0
  reserves :
      (m : MemoryGovernanceStore) (t w id sandbox_id : Text) (now : Time)
      → lookup id m.allocations ≡ none
      → Step m (reserve_allocation m t w id sandbox_id now).0
  releases :
      (m : MemoryGovernanceStore) (t w id : Text) (now : Time)
      → Step m (release_allocation m t w id now).0
  claims :
      (m : MemoryGovernanceStore) (t w key hash : Text) (expires_at : Time)
      → Step m (insert_idempotency_pending m t w key hash expires_at).0

pub data Reach : MemoryGovernanceStore → Type 0 where
  start : Reach new_memory
  next : {m n : MemoryGovernanceStore} → Reach m → Step m n → Reach n

claim-IsBalanced :
    (m : MemoryGovernanceStore) (t w key hash : Text) (expires_at : Time)
    → IsBalanced m
    → IsBalanced (insert_idempotency_pending m t w key hash expires_at).0
unfolding insert_idempotency_pending
claim-IsBalanced m t w key hash expires_at b = record {
  balance = ground (arith, b.balance);
  rows = λ k. subst (λ q. Covered (lookup k q)) (ground arith) (b.rows k);
}

Step-IsBalanced : {m n : MemoryGovernanceStore} → Step m n → IsBalanced m → IsBalanced n
Step-IsBalanced (sets_quota m t w limit h) b = set_quota-IsBalanced m t w limit h b
Step-IsBalanced (reserves m t w id sandbox_id now h) b =
    reserve_allocation-IsBalanced m t w id sandbox_id now h b
Step-IsBalanced (releases m t w id now) b = release_allocation-IsBalanced m t w id now b
Step-IsBalanced (claims m t w key hash expires_at) b = claim-IsBalanced m t w key hash expires_at b

-- After any history of calls, failed ones included, in which every reservation brings an allocation
-- id that is not in use, the counts of all quota rows add up to the allocations that are held, and
-- every count lies between zero and its row's limit.
pub Reach-IsBalanced : (m : MemoryGovernanceStore) → Reach m → IsBalanced m
Reach-IsBalanced m start = new_memory-IsBalanced
Reach-IsBalanced m (next r st) = Step-IsBalanced st (Reach-IsBalanced _ r)
