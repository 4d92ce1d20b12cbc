-- ===== src/Sandbox/Mirror/Release.antt =====
-- `Drain` and `CompleteDeletion` keep the projection in step with the durable rows.
use kubebox.Common.{
  Text, text_eq, lookup, insert, lookup-insert, pos, ltb_ℤ, dec64, Option, none, some, ◌≡◌, refl,
  ap, sym, ◌∙◌, true, false, Option-cases, inl, inr, arith,
}
use kubebox.Governance.{Time}
use kubebox.Memory.{MemoryGovernanceStore, reserved_status, released_status}
use kubebox.Memory.Cases.{IsReleased, release_allocation-cases}
use kubebox.Sandbox.Types.{
  AllocationStatus, reserved, released, Allocation, CreateRequest, Phase, provisioning, ready,
  draining, deleted, failed, Sandbox, Store, Error, quota_key,
}
use kubebox.Sandbox.Quotas.{
  write_count, write_released, sync_projection, after_release, release_reserved, release_known,
  release_found, release_allocation,
}
use kubebox.Sandbox.Lifecycle.{
  write_phase, after_drain, drain_live, drain_phase, drain_found, drain, complete_phase,
  complete_found, complete_deletion,
}
use kubebox.Sandbox.Mirror.{
  held_of, mirror_held, mirror_row-some, SameQuotas, SameAllocations, IsMirrored,
  written-SameQuotas, insert-SameAllocations, memory_deps,
}

after_release-IsMirrored :
    (s : Store MemoryGovernanceStore) (g g' : MemoryGovernanceStore) (key id : Text)
    (a : Allocation)
    → SameQuotas g.quotas s.quotas
    → SameAllocations g.allocations s.allocations
    → IsReleased g g' key id (held_of a)
    → IsMirrored (after_release none (lookup key s.quotas) key id a (record s { gov = some g' })).0
unfolding after_release sync_projection write_released write_count
after_release-IsMirrored s g g' key id a same held r =
    let (q, there, known) =
      mirror_row-some (lookup key s.quotas) r.row (sym (same key) ∙ r.there) in
    let q' = record q { current_count = dec64 q.current_count } in
    let counted : ltb_ℤ (pos 0) q.current_count ≡ true = ground (arith, rw known at r.counted) in
    rw (there, counted)
      (record {
        durable = g';
        boundary = refl;
        quotas =
            written-SameQuotas g.quotas g'.quotas s.quotas (insert key q' s.quotas) key q'
              (rw known at r.wrote.quotas) (λ k. lookup-insert key k q' s.quotas) same;
        allocations = rw r.wrote.kept (
            insert-SameAllocations g.allocations s.allocations id (record a { status = released })
              held);
      })

write_phase-IsMirrored :
    (s : Store MemoryGovernanceStore) (id : Text) (sb : Sandbox) (phase : Phase) (now : Time)
    → IsMirrored s
    → IsMirrored (write_phase s id sb phase now).0
unfolding write_phase
write_phase-IsMirrored s id sb phase now m = record {
  durable = m.durable;
  boundary = m.boundary;
  quotas = m.quotas;
  allocations = m.allocations;
}

held_status : text_eq reserved_status released_status ≡ false
unfolding text_eq
held_status = refl

module _ (marshal : CreateRequest → Text) (sha256_hex : Text → Text) where
  reserved-IsMirrored :
      (s : Store MemoryGovernanceStore) (g : MemoryGovernanceStore) (id : Text) (a : Allocation)
      (now : Time)
      → lookup id s.allocations ≡ some a
      → a.status ≡ reserved
      → SameQuotas g.quotas s.quotas
      → SameAllocations g.allocations s.allocations
      → IsMirrored (release_reserved (memory_deps marshal sha256_hex) (some g) id a s now).0
  unfolding release_reserved quota_key after_release
  reserved-IsMirrored s g id a now there live same held =
      elim (release_allocation-cases g a.tenant_id a.owner_id id now (held_of a)
        (held id ∙ ap mirror_held there) (rw live held_status)) [
          | inl (e, refused) ↦
              rw refused
                (record { durable = g; boundary = refl; quotas = same; allocations = held })
          | inr (done, r) ↦ rw done (after_release-IsMirrored s g _ _ id a same held r)
        ]

  found-IsMirrored :
      (s : Store MemoryGovernanceStore) (o : Option Allocation) (id : Text) (now : Time)
      → lookup id s.allocations ≡ o
      → IsMirrored s
      → IsMirrored (release_found (memory_deps marshal sha256_hex) o id s now).0
  unfolding release_found
  found-IsMirrored s none id now there m = m
  found-IsMirrored s (some a) id now there m = known a.status refl
    where
      known :
          (status : AllocationStatus)
          → a.status ≡ status
          → IsMirrored (release_known (memory_deps marshal sha256_hex) status id a s now).0
      known released e = m
      known reserved e =
          rw m.boundary (reserved-IsMirrored s m.durable id a now there e m.quotas m.allocations)

  release-IsMirrored :
      (s : Store MemoryGovernanceStore) (id : Text) (now : Time)
      → IsMirrored s
      → IsMirrored (release_allocation (memory_deps marshal sha256_hex) s id now).0
  unfolding release_allocation
  release-IsMirrored s id now m = found-IsMirrored s _ id now refl m

  drained-IsMirrored :
      (out : Store MemoryGovernanceStore × Option Error) (id : Text) (sb : Sandbox) (now : Time)
      → IsMirrored out.0
      → IsMirrored (after_drain out id sb now).0
  unfolding after_drain
  drained-IsMirrored (s, some e) id sb now m = m
  drained-IsMirrored (s, none) id sb now m = write_phase-IsMirrored s id sb draining now m

  live-IsMirrored :
      (s : Store MemoryGovernanceStore) (id : Text) (sb : Sandbox) (now : Time)
      → IsMirrored s
      → IsMirrored (drain_live (memory_deps marshal sha256_hex) s id sb now).0
  unfolding drain_live
  live-IsMirrored s id sb now m =
      drained-IsMirrored
        (release_allocation (memory_deps marshal sha256_hex) s sb.allocation_id now) id sb now
        (release-IsMirrored s sb.allocation_id now m)

  phase-IsMirrored :
      (phase : Phase) (s : Store MemoryGovernanceStore) (id : Text) (sb : Sandbox) (now : Time)
      → IsMirrored s
      → IsMirrored (drain_phase (memory_deps marshal sha256_hex) phase s id sb now).0
  unfolding drain_phase
  phase-IsMirrored provisioning s id sb now m = live-IsMirrored s id sb now m
  phase-IsMirrored ready s id sb now m = live-IsMirrored s id sb now m
  phase-IsMirrored draining s id sb now m = m
  phase-IsMirrored deleted s id sb now m = m
  phase-IsMirrored failed s id sb now m = m

  -- A drain keeps the projection equal to what the boundary holds, refusals included.
  pub drain-IsMirrored :
      (s : Store MemoryGovernanceStore) (id : Text) (now : Time)
      → IsMirrored s
      → IsMirrored (drain (memory_deps marshal sha256_hex) s id now).0
  unfolding drain drain_found
  drain-IsMirrored s id now m = elim (Option-cases (lookup id s.sandboxes)) [
    | inl missing ↦ rw missing m
    | inr (sb, there) ↦ rw there (phase-IsMirrored sb.phase s id sb now m)
  ]

completed-IsMirrored :
    (phase : Phase) (s : Store MemoryGovernanceStore) (id : Text) (sb : Sandbox) (now : Time)
    → IsMirrored s
    → IsMirrored (complete_phase phase s id sb now).0
unfolding complete_phase
completed-IsMirrored provisioning s id sb now m = m
completed-IsMirrored ready s id sb now m = m
completed-IsMirrored draining s id sb now m = write_phase-IsMirrored s id sb deleted now m
completed-IsMirrored deleted s id sb now m = m
completed-IsMirrored failed s id sb now m = write_phase-IsMirrored s id sb deleted now m

-- A deletion writes neither.
pub complete_deletion-IsMirrored :
    (s : Store MemoryGovernanceStore) (id : Text) (now : Time)
    → IsMirrored s
    → IsMirrored (complete_deletion s id now).0
unfolding complete_deletion complete_found
complete_deletion-IsMirrored s id now m = elim (Option-cases (lookup id s.sandboxes)) [
  | inl missing ↦ rw missing m
  | inr (sb, there) ↦ rw there (completed-IsMirrored sb.phase s id sb now m)
]
