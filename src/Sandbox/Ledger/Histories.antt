-- ===== src/Sandbox/Ledger/Histories.antt =====
-- Histories of calls on the store without a durable boundary, and what holds after each of them.
use kubebox.Common.{
  ◌+◌, ◌-◌, ◌^◌, ◌<◌, ◌≡◌, refl, sym, Text, lookup, ℤ, pos, ◌≤ℤ◌, Option, none, some,
}
use kubebox.Governance.{Time}
use kubebox.Sandbox.Types.{Store, Deps, Quota, Sandbox, Allocation, CreateRequest, quota_key}
use kubebox.Sandbox.Quotas.{new_store, get_quota, set_quota}
use kubebox.Sandbox.Create.{create}
use kubebox.Sandbox.Lifecycle.{drain, complete_deletion}
use kubebox.Sandbox.Ledger.{IsConsistent, HasSlot, slot_of, used, new_store-IsConsistent}
use kubebox.Sandbox.Ledger.SetQuota.{set_quota-IsConsistent}
use kubebox.Sandbox.Ledger.Create.{create-IsConsistent}
use kubebox.Sandbox.Ledger.Drain.{drain-IsConsistent}
use kubebox.Sandbox.Ledger.Delete.{complete_deletion-IsConsistent}

-- One call, with any arguments: a limit is a Go `int`, and the number of the next sandbox fits into
-- 64 bits. Failed calls are steps too.
pub data Step {G : Type 0} (deps : Deps G) : Store G → Store G → Type 0 where
  sets_quota :
      (s : Store G) (tenant_id owner_id : Text) (limit : ℤ)
      → limit ≤ℤ pos (2 ^ 63 - 1)
      → Step deps s (set_quota deps s tenant_id owner_id limit).0
  creates :
      (s : Store G) (now : Time) (actor key : Text) (req : CreateRequest)
      → s.sequence + 1 < 2 ^ 64
      → Step deps s (create deps s now actor key req).0
  drains : (s : Store G) (id : Text) (now : Time) → Step deps s (drain deps s id now).0
  completes : (s : Store G) (id : Text) (now : Time) → Step deps s (complete_deletion s id now).0

-- The stores that calls lead to from the new one.
pub data Reach {G : Type 0} (deps : Deps G) : Store G → Type 0 where
  start : Reach deps (new_store none)
  next : {s u : Store G} → Reach deps s → Step deps s u → Reach deps u

module _ {G : Type 0} (deps : Deps G) where
  pub Step-IsConsistent : {s u : Store G} → Step deps s u → IsConsistent s → IsConsistent u
  Step-IsConsistent (sets_quota s tenant_id owner_id limit h) c =
      set_quota-IsConsistent deps s tenant_id owner_id limit h c
  Step-IsConsistent (creates s now actor key req h) c =
      create-IsConsistent deps s now actor key req h c
  Step-IsConsistent (drains s id now) c = drain-IsConsistent deps s id now c
  Step-IsConsistent (completes s id now) c = complete_deletion-IsConsistent s id now c

  pub Reach-IsConsistent : {s : Store G} → Reach deps s → IsConsistent s
  Reach-IsConsistent start = new_store-IsConsistent
  Reach-IsConsistent (next r st) = Step-IsConsistent st (Reach-IsConsistent r)

  -- After any history of calls from the new store without a durable boundary, in which limits are
  -- Go integers and the numbers of sandboxes fit into 64 bits, a quota row counts exactly the
  -- reserved allocations of its tenant and owner, and these stay within its limit.
  pub Reach-quota :
      (s : Store G) (tenant_id owner_id : Text) (q : Quota)
      → Reach deps s
      → get_quota s tenant_id owner_id ≡ some q
      → (q.current_count ≡ pos (used s (quota_key tenant_id owner_id)))
        × (pos (used s (quota_key tenant_id owner_id)) ≤ℤ q.concurrent_limit)
  unfolding get_quota
  Reach-quota s tenant_id owner_id q r e =
      let row = rw e at ((Reach-IsConsistent r).rows (quota_key tenant_id owner_id)) in
      (row.counted, row.within)

  slot_facts :
      (s : Store G) (id : Text) (sb : Sandbox) (o : Option Allocation)
      → o ≡ lookup sb.allocation_id s.allocations
      → HasSlot id sb o
      → (a : Allocation) × (lookup sb.allocation_id s.allocations ≡ some a)
        × (a.sandbox_id ≡ id)
        × (a.status ≡ slot_of sb.phase)
  slot_facts s id sb none e h = absurd h
  slot_facts s id sb (some a) e h = (a, sym e, h.0, h.1)

  -- After any such history of calls (from the new store without a durable boundary, with limits and
  -- numbers in range), every sandbox has an allocation made for it, reserved while the sandbox is
  -- provisioning or ready and released in every later phase.
  pub Reach-slot :
      (s : Store G) (id : Text) (sb : Sandbox)
      → Reach deps s
      → lookup id s.sandboxes ≡ some sb
      → (a : Allocation) × (lookup sb.allocation_id s.allocations ≡ some a)
        × (a.sandbox_id ≡ id)
        × (a.status ≡ slot_of sb.phase)
  Reach-slot s id sb r e = slot_facts s id sb _ refl (rw e at ((Reach-IsConsistent r).links id))
