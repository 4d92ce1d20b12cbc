-- ===== src/Sandbox/Mirror/Create.antt =====
-- `Create` keeps the projection in step with the durable rows.
use kubebox.Common.{
  ℕ, Text, lookup, insert, lookup-insert, inc64, Option, none, some, ◌≡◌, refl, Bool-cases, inl,
  inr, sym, ◌∙◌,
}
use kubebox.Governance.{Time, GovError}
use kubebox.Memory.{MemoryGovernanceStore}
use kubebox.Memory.Cases.{IsReserved, reserve_allocation-cases}
use kubebox.Sandbox.Types.{
  CreateRequest, IdempotencyRecord, Store, quota_key, sandbox_id_of, allocation_id_of,
}
use kubebox.Sandbox.Quotas.{materialize, write_count}
use kubebox.Sandbox.Create.{
  new_allocation, after_reserve, commit, finish, reserve, create_new, create_known, create_valid,
  create, is_invalid, idempotency_key_of, with_defaults,
}
use kubebox.Sandbox.Mirror.{
  mirror_row-some, SameQuotas, SameAllocations, IsMirrored, written-SameQuotas,
  insert-SameAllocations, memory_deps,
}

-- A store whose rows are another's, over a boundary.
abbrev over : Store MemoryGovernanceStore → MemoryGovernanceStore → Store MemoryGovernanceStore
over s g = record s { gov = some g }

refused-IsMirrored :
    (s : Store MemoryGovernanceStore) (g : MemoryGovernanceStore) (e : GovError) (idem_key : Text)
    (n : ℕ) (prior : IdempotencyRecord) (now : Time) (actor key : Text) (req : CreateRequest)
    → SameQuotas g.quotas s.quotas
    → SameAllocations g.allocations s.allocations
    → IsMirrored
        (finish
          (after_reserve (some e) idem_key actor req (over s g))
          n
          idem_key
          prior
          now
          actor
          key
          req).0
unfolding finish after_reserve
refused-IsMirrored s g e idem_key n prior now actor key req same held = record {
  durable = g;
  boundary = refl;
  quotas = same;
  allocations = held;
}

reserved-IsMirrored :
    (s : Store MemoryGovernanceStore) (g g' : MemoryGovernanceStore) (idem_key : Text) (n : ℕ)
    (prior : IdempotencyRecord) (now : Time) (actor key : Text) (req : CreateRequest)
    → SameQuotas g.quotas s.quotas
    → SameAllocations g.allocations s.allocations
    → IsReserved g g' (quota_key req.tenant_id actor) (allocation_id_of n) (sandbox_id_of n)
    → IsMirrored
        (finish
          (after_reserve none idem_key actor req (over s g'))
          n
          idem_key
          prior
          now
          actor
          key
          req).0
unfolding finish after_reserve commit write_count materialize new_allocation
reserved-IsMirrored s g g' idem_key n prior now actor key req same held r =
    let owner = quota_key req.tenant_id actor in
    let (q, there, known) =
      mirror_row-some (lookup owner s.quotas) r.row (sym (same owner) ∙ r.there) in
    let q' = record q { current_count = inc64 q.current_count } in
    rw there (record {
      durable = g';
      boundary = refl;
      quotas =
          written-SameQuotas g.quotas g'.quotas s.quotas (insert owner q' s.quotas) owner q'
            (rw known at r.wrote.quotas) (λ k. lookup-insert owner k q' s.quotas) same;
      allocations = rw r.wrote.kept (
          insert-SameAllocations g.allocations s.allocations (allocation_id_of n)
            (new_allocation n actor req) held);
    })

module _ (marshal : CreateRequest → Text) (sha256_hex : Text → Text) where
  reserve-IsMirrored :
      (s : Store MemoryGovernanceStore) (g : MemoryGovernanceStore) (idem_key : Text) (n : ℕ)
      (prior : IdempotencyRecord) (now : Time) (actor key : Text) (req : CreateRequest)
      → s.gov ≡ some g
      → SameQuotas g.quotas s.quotas
      → SameAllocations g.allocations s.allocations
      → IsMirrored
          (finish
            (reserve (memory_deps marshal sha256_hex) (some g) n idem_key now actor req s)
            n
            idem_key
            prior
            now
            actor
            key
            req).0
  unfolding reserve quota_key
  reserve-IsMirrored s g idem_key n prior now actor key req there same held =
      elim (reserve_allocation-cases g req.tenant_id actor (allocation_id_of n) (sandbox_id_of n)
        now) [
          | inl (e, refused) ↦
              rw refused (refused-IsMirrored s g e idem_key n prior now actor key req same held)
          | inr (done, r) ↦
              rw done (reserved-IsMirrored s g _ idem_key n prior now actor key req same held r)
        ]

  new-IsMirrored :
      (s : Store MemoryGovernanceStore) (now : Time) (actor key : Text) (req : CreateRequest)
      (hash : Text)
      → IsMirrored s
      → IsMirrored (create_new (memory_deps marshal sha256_hex) s now actor key req hash).0
  unfolding create_new
  new-IsMirrored s now actor key req hash m = rw m.boundary (
      reserve-IsMirrored _ m.durable (idempotency_key_of req key) _ _ now actor key req refl
        m.quotas m.allocations)

  known-IsMirrored :
      (s : Store MemoryGovernanceStore) (o : Option IdempotencyRecord) (now : Time)
      (actor key : Text) (req : CreateRequest) (hash : Text)
      → IsMirrored s
      → IsMirrored (create_known (memory_deps marshal sha256_hex) o s now actor key req hash).0
  unfolding create_known
  known-IsMirrored s none now actor key req hash m = new-IsMirrored s now actor key req hash m
  known-IsMirrored s (some prior) now actor key req hash m = m

  -- A creation keeps the projection equal to what the boundary holds, refusals included.
  pub create-IsMirrored :
      (s : Store MemoryGovernanceStore) (now : Time) (actor key : Text) (req : CreateRequest)
      → IsMirrored s
      → IsMirrored (create (memory_deps marshal sha256_hex) s now actor key req).0
  unfolding create create_valid
  create-IsMirrored s now actor key req m = elim (Bool-cases (is_invalid actor key req)) [
    | inl bad ↦ rw bad m
    | inr valid ↦ rw valid (known-IsMirrored s _ now actor key (with_defaults req) _ m)
  ]
