-- ===== src/Sandbox/Ledger.antt =====
-- The quota ledger of the store without a durable boundary: what each method keeps true.
pub mod SetQuota
pub mod Create
pub mod Slots
pub mod Drain
pub mod Delete
pub mod Histories
pub mod Phases
pub mod Lifespan
pub mod Records
pub mod Lineage
pub mod Replays
pub mod Endings
use kubebox.Common.{
  ℕ, ◌-◌, ◌^◌, ◌<◌, ◌≡◌, refl, inl, inr, Text, text_eq, text_eq_iff, lookup, insert, lookup-insert,
  Map, count_where, pos, ◌≤ℤ◌, Option, none, some, Bool, true, false, ◌&&◌, Bool-cases,
}
use kubebox.Sandbox.Quotas.{new_store}
use kubebox.Sandbox.Types.{
  Phase, provisioning, ready, draining, deleted, AllocationStatus, reserved, released, Quota,
  Sandbox, Allocation, Store, quota_key, sandbox_id_of, allocation_id_of,
}

abbrev pub is_reserved : AllocationStatus → Bool
is_reserved reserved = true
is_reserved released = false

-- The allocations that hold a slot of the quota row `key`.
abbrev pub holds : Text → Allocation → Bool
holds key a = text_eq (quota_key a.tenant_id a.owner_id) key && is_reserved a.status

abbrev pub used : {G : Type 0} → Store G → Text → ℕ
used s key = count_where (holds key) s.allocations

-- The state of the slot of a sandbox in each phase.
abbrev pub slot_of : Phase → AllocationStatus
slot_of provisioning = reserved
slot_of ready = reserved
slot_of draining = released
slot_of deleted = released
slot_of Phase.failed = released

pub record IsRow (n : ℕ) (q : Quota) : Type 0 where
  pub counted : q.current_count ≡ pos n
  pub within : pos n ≤ℤ q.concurrent_limit
  pub int : q.concurrent_limit ≤ℤ pos (2 ^ 63 - 1)

-- The row of a key of which `n` slots are held. Without a row no slot is held.
abbrev pub Row : ℕ → Option Quota → Type 0
Row n none = n ≡ 0
Row n (some q) = IsRow n q

abbrev pub HasSlot : Text → Sandbox → Option Allocation → Type 0
HasSlot id sb none = ⊥
HasSlot id sb (some a) = (a.sandbox_id ≡ id) × (a.status ≡ slot_of sb.phase)

abbrev pub Link : {G : Type 0} → Store G → Text → Option Sandbox → Type 0
Link s id none = Unit {0}
Link s id (some sb) = HasSlot id sb (lookup sb.allocation_id s.allocations)

module _ {G : Type 0} where
  -- Every quota row counts the slots that are held, within its limit; every sandbox has an
  -- allocation of its own, in the state of its phase; and the numbers above `sequence` are free.
  pub record IsConsistent (s : Store G) : Type 0 where
    pub in_memory : s.gov ≡ none
    pub rows : (key : Text) → Row (used s key) (lookup key s.quotas)
    pub links : (id : Text) → Link s id (lookup id s.sandboxes)
    pub free_allocation :
        (n : ℕ) → s.sequence < n → lookup (allocation_id_of n) s.allocations ≡ none
    pub free_sandbox : (n : ℕ) → s.sequence < n → lookup (sandbox_id_of n) s.sandboxes ≡ none

  pub new_store-IsConsistent : IsConsistent (new_store none)
  unfolding new_store lookup count_where
  new_store-IsConsistent = record {
    in_memory = refl;
    rows = λ key. refl;
    links = λ id. tt;
    free_allocation = λ n h. refl;
    free_sandbox = λ n h. refl;
  }

  -- A row may be added with zeros, and its limit may move to any value that covers the count.
  pub Row-insert :
      (s : Store G) (key k : Text) (q : Quota)
      → IsRow (used s key) q
      → Row (used s k) (lookup k s.quotas)
      → Row (used s k) (lookup k (insert key q s.quotas))
  Row-insert s key k q h r = rw lookup-insert (elim (Bool-cases (text_eq key k)) [
    | inl e ↦ rw (e, ← (text_eq_iff key k).0 e) h
    | inr e ↦ rw e r
  ])

  -- New quota rows alone keep the store consistent.
  pub with_quotas :
      (s : Store G) (m : Map Quota)
      → IsConsistent s
      → ((k : Text) → Row (used s k) (lookup k m))
      → IsConsistent (record s { quotas = m })
  with_quotas s m c h = record {
    in_memory = c.in_memory;
    rows = h;
    links = c.links;
    free_allocation = c.free_allocation;
    free_sandbox = c.free_sandbox;
  }
