-- ===== src/Sandbox/Boundary/Durable.antt =====
-- The store over the durable boundary of internal/persistence/memory.go.
use kubebox.Common.{lookup, some, refl}
use kubebox.Memory.{new_memory, memory_api}
use kubebox.Memory.Balance.{
  IsBalanced, new_memory-IsBalanced, set_quota-IsBalanced, reserve_allocation-IsBalanced,
  release_allocation-IsBalanced,
}
use kubebox.Memory.Unused.{
  IsUnused, set_quota-IsUnused, reserve_allocation-IsUnused, release_allocation-IsUnused,
}
use kubebox.Sandbox.Quotas.{new_store}
use kubebox.Sandbox.Boundary.{IsKept, IsGoverned}

pub memory_kept : IsKept memory_api IsBalanced IsUnused
memory_kept = record {
  sets = λ g t w limit int b. set_quota-IsBalanced g t w limit int b;
  reserves = λ g t w id sandbox_id now fresh b.
      reserve_allocation-IsBalanced g t w id sandbox_id now fresh b;
  releases = λ g t w id now b. release_allocation-IsBalanced g t w id now b;
  sets_fresh = λ g t w id limit fresh. set_quota-IsUnused g t w id limit fresh;
  reserves_fresh = λ g t w j id sandbox_id now d fresh.
      reserve_allocation-IsUnused g t w j id sandbox_id now d fresh;
  releases_fresh = λ g t w j id now fresh. release_allocation-IsUnused g t w j id now fresh;
}

pub new_store-IsGoverned : IsGoverned IsBalanced IsUnused (new_store (some new_memory))
unfolding new_store new_memory lookup
new_store-IsGoverned = record {
  durable = new_memory;
  boundary = refl;
  holds = new_memory-IsBalanced;
  fresh = λ n later. refl;
}
