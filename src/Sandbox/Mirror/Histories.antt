-- ===== src/Sandbox/Mirror/Histories.antt =====
-- Histories of calls on a store over `MemoryGovernanceStore`.
use kubebox.Common.{Text, lookup, some, refl}
use kubebox.Memory.{MemoryGovernanceStore, new_memory}
use kubebox.Sandbox.Types.{CreateRequest, Store, Deps}
use kubebox.Sandbox.Quotas.{new_store}
use kubebox.Sandbox.Ledger.Histories.{Step, sets_quota, creates, drains, completes}
use kubebox.Sandbox.Mirror.{IsMirrored, memory_deps}
use kubebox.Sandbox.Mirror.SetQuota.{set_quota-IsMirrored}
use kubebox.Sandbox.Mirror.Create.{create-IsMirrored}
use kubebox.Sandbox.Mirror.Release.{drain-IsMirrored, complete_deletion-IsMirrored}

-- The stores that calls lead to from a store.
pub data Calls {G : Type 0} (deps : Deps G) (s : Store G) : Store G → Type 0 where
  none_yet : Calls deps s s
  call : {u v : Store G} → Calls deps s u → Step deps u v → Calls deps s v

-- Calls after calls.
pub append :
    {G : Type 0} (deps : Deps G) {s u v : Store G}
    → Calls deps s u
    → Calls deps u v
    → Calls deps s v
append deps before none_yet = before
append deps before (call calls step) = call (append deps before calls) step

pub new_store-IsMirrored : IsMirrored (new_store (some new_memory))
unfolding new_store new_memory lookup
new_store-IsMirrored = record {
  durable = new_memory;
  boundary = refl;
  quotas = λ k. refl;
  allocations = λ id. refl;
}

module _ (marshal : CreateRequest → Text) (sha256_hex : Text → Text) where
  abbrev deps : Deps MemoryGovernanceStore
  deps = memory_deps marshal sha256_hex

  Step-IsMirrored :
      {s u : Store MemoryGovernanceStore} → Step deps s u → IsMirrored s → IsMirrored u
  Step-IsMirrored (sets_quota s t w limit h) m =
      set_quota-IsMirrored marshal sha256_hex s t w limit m
  Step-IsMirrored (creates s now actor key req h) m =
      create-IsMirrored marshal sha256_hex s now actor key req m
  Step-IsMirrored (drains s id now) m = drain-IsMirrored marshal sha256_hex s id now m
  Step-IsMirrored (completes s id now) m = complete_deletion-IsMirrored s id now m

  pub Calls-IsMirrored :
      {s u : Store MemoryGovernanceStore} → IsMirrored s → Calls deps s u → IsMirrored u
  Calls-IsMirrored m none_yet = m
  Calls-IsMirrored m (call calls step) = Step-IsMirrored step (Calls-IsMirrored m calls)
