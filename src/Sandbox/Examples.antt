-- ===== src/Sandbox/Examples.antt =====
-- Runs of the sandbox store on small inputs.
use kubebox.Common.{
  [], ◌∷◌, ◌++◌, ◌+◌, ◌^◌, ◌<◌, ◌≡◌, Option, codes, ◌≢◌, refl, inl, Text, text_eq, text_eq_iff,
  lookup, insert, pos, ◌≤ℤ◌, ◌+ℤ◌, ◌*ℤ◌, wrap64, inc64, none, some, pad8, arith, false, true,
  if◌then◌else◌,
}
use kubebox.Governance.{GovError}
use kubebox.Memory.{MemoryGovernanceStore, new_memory, memory_api, reserve_allocation}
use kubebox.Sandbox.Types.{
  Store, Deps, Quota, Sandbox, Allocation, CreateRequest, ok, err, ready, draining, quota_key,
  sandbox_id_of, allocation_id_of, seconds, clone_map, clone_sandbox, idempotency_conflict,
  idempotency_pending, map_gov_error, not_found,
}
use kubebox.Sandbox.Quotas.{new_store, get_quota, set_quota, write_limit, write_count}
use kubebox.Sandbox.Create.{create, request_hash, with_defaults, idempotency_key_of}
use kubebox.Sandbox.Lifecycle.{get, drain, complete_deletion}
use kubebox.Sandbox.Ledger.Replays.{create_conflict}
use kubebox.Sandbox.Failures.{create_full_sticks, create_refused}
use kubebox.Sandbox.Http.{HttpRequest}
use kubebox.Sandbox.Ledger.{used, slot_of}
use kubebox.Sandbox.Ledger.Histories.{
  Reach, start, next, sets_quota, creates, drains, Reach-quota, Reach-slot, Reach-IsConsistent,
}
use kubebox.Sandbox.Ledger.Phases.{Follows, Step-Follows}
use kubebox.Sandbox.Ledger.Slots.{Slot}
use kubebox.Sandbox.Ledger.Lifespan.{moved}
use kubebox.Sandbox.Ledger.Endings.{IsCompleted, drain_complete}
use kubebox.Sandbox.Mirror.Histories.{Calls, none_yet, call}

-- The fingerprint keeps the template and the class apart; it is not shortened.
abbrev plain_deps : Deps MemoryGovernanceStore
plain_deps = record {
  api = memory_api;
  marshal = λ req. req.template ++ (0 ∷ req.runtime_class);
  sha256_hex = λ t. t;
}

abbrev tenant : Text
tenant = b't' ∷ []

abbrev owner : Text
owner = b'o' ∷ []

abbrev key_one : Text
key_one = b'k' ∷ []

abbrev request : CreateRequest
request = record {
  tenant_id = tenant;
  template = b'p' ∷ [];
  runtime_class = b'g' ∷ [];
  ttl_seconds = pos 60;
  resources = none;
}

abbrev other_request : CreateRequest
other_request = record request { template = b'q' ∷ [] }

abbrev empty_store : Store MemoryGovernanceStore
empty_store = new_store none

abbrev allowed : Store MemoryGovernanceStore
allowed = (set_quota plain_deps empty_store tenant owner (pos 2)).0

abbrev created : Store MemoryGovernanceStore
created = (create plain_deps allowed (pos 5) owner key_one request).0

abbrev row : Quota
row = record {
  tenant_id = tenant;
  owner_id = owner;
  concurrent_limit = pos 2;
  current_count = pos 1;
}

abbrev first_sandbox : Sandbox
first_sandbox = record {
  id = sandbox_id_of 1;
  tenant_id = tenant;
  owner_id = owner;
  template = b'p' ∷ [];
  runtime_class = b'g' ∷ [];
  resources = none;
  phase = ready;
  allocation_id = allocation_id_of 1;
  idempotency_key = key_one;
  expires_at = pos 60000000005;
  created_at = pos 5;
  updated_at = pos 5;
}

allowed_number : allowed.sequence + 1 < 2 ^ 64
unfolding set_quota new_store lookup write_limit
allowed_number = omega arith

history : Reach plain_deps created
history =
    next (next start (sets_quota empty_store tenant owner (pos 2) (omega arith)))
      (creates allowed (pos 5) owner key_one request allowed_number)

created_row : get_quota created tenant owner ≡ some row
unfolding create set_quota write_limit write_count new_store lookup insert text_eq get_quota
    quota_key inc64 wrap64 ◌+ℤ◌ with_defaults
created_row = refl

created_sandbox : lookup (sandbox_id_of 1) created.sandboxes ≡ some first_sandbox
unfolding create set_quota write_limit write_count new_store lookup insert text_eq quota_key inc64
    wrap64 ◌+ℤ◌ ◌*ℤ◌ with_defaults idempotency_key_of sandbox_id_of allocation_id_of pad8 seconds
    clone_map
created_sandbox = refl

created_answer : (create plain_deps allowed (pos 5) owner key_one request).1 ≡ ok first_sandbox
unfolding create set_quota write_limit write_count new_store lookup insert text_eq quota_key inc64
    wrap64 ◌+ℤ◌ ◌*ℤ◌ with_defaults idempotency_key_of sandbox_id_of allocation_id_of pad8 seconds
    clone_map clone_sandbox
created_answer = refl

Reach-quota_example :
    (row.current_count ≡ pos (used created (quota_key tenant owner)))
    × (pos (used created (quota_key tenant owner)) ≤ℤ row.concurrent_limit)
Reach-quota_example = Reach-quota plain_deps created tenant owner row history created_row

Reach-slot_example :
    (a : Allocation) × (lookup first_sandbox.allocation_id created.allocations ≡ some a)
    × (a.sandbox_id ≡ sandbox_id_of 1)
    × (a.status ≡ slot_of first_sandbox.phase)
Reach-slot_example =
    Reach-slot plain_deps created (sandbox_id_of 1) first_sandbox history created_sandbox

-- The sandbox is drained, and its owner gets another limit.
abbrev drained : Store MemoryGovernanceStore
drained = (drain plain_deps created (sandbox_id_of 1) (pos 7)).0

abbrev enlarged : Store MemoryGovernanceStore
enlarged = (set_quota plain_deps drained tenant owner (pos 3)).0

enlarging : Calls plain_deps drained enlarged
enlarging = call none_yet (sets_quota drained tenant owner (pos 3) (omega arith))

draining-Calls : Calls plain_deps created enlarged
draining-Calls =
    call (call none_yet (drains created (sandbox_id_of 1) (pos 7)))
      (sets_quota drained tenant owner (pos 3) (omega arith))

other_fingerprint :
    request_hash plain_deps (with_defaults request)
    ≢ request_hash plain_deps (with_defaults other_request)
unfolding request_hash with_defaults text_eq
other_fingerprint h = let same : false ≡ true = (text_eq_iff _ _).1 h in cc

create_conflict_example :
    create plain_deps enlarged (pos 9) owner key_one other_request
    ≡ (enlarged, err idempotency_conflict)
create_conflict_example =
    create_conflict plain_deps allowed enlarged (pos 5) (pos 9) owner owner key_one request
      other_request first_sandbox created_answer draining-Calls refl refl refl
      (inl other_fingerprint)

Step-Follows_example :
    Follows first_sandbox
      (lookup (sandbox_id_of 1) (drain plain_deps created (sandbox_id_of 1) (pos 7)).0.sandboxes)
Step-Follows_example =
    Step-Follows plain_deps (sandbox_id_of 1) first_sandbox
      (drains created (sandbox_id_of 1) (pos 7)) (Reach-IsConsistent plain_deps history)
      created_sandbox

abbrev completed : Store MemoryGovernanceStore
completed = (complete_deletion enlarged (sandbox_id_of 1) (pos 8)).0

abbrev completed_later : Store MemoryGovernanceStore
completed_later = (drain plain_deps completed (sandbox_id_of 1) (pos 9)).0

drain_complete_example :
    let d = drain plain_deps created (sandbox_id_of 1) (pos 7) in
    (d.1 ≡ ok (clone_sandbox (moved first_sandbox draining (pos 7))))
    × ((owner : Slot created (sandbox_id_of 1) first_sandbox) × (used d.0
              (quota_key owner.allocation.tenant_id owner.allocation.owner_id)
            + 1
          ≡ used created (quota_key owner.allocation.tenant_id owner.allocation.owner_id)))
    × IsCompleted plain_deps enlarged
        (sandbox_id_of 1)
        first_sandbox
        (pos 8)
        (complete_deletion enlarged (sandbox_id_of 1) (pos 8))
    × (get completed_later (sandbox_id_of 1) ≡ err not_found)
drain_complete_example =
    drain_complete plain_deps created enlarged completed_later (sandbox_id_of 1) first_sandbox
      (pos 7) (pos 8) history created_sandbox refl enlarging
      (call none_yet (drains completed (sandbox_id_of 1) (pos 9)))

-- An owner without a quota is refused; a quota of two comes too late.
abbrev refused : Store MemoryGovernanceStore
refused = (create plain_deps empty_store (pos 5) owner key_one request).0

abbrev allowed_later : Store MemoryGovernanceStore
allowed_later = (set_quota plain_deps refused tenant owner (pos 2)).0

key_unused_yet :
    lookup (idempotency_key_of (with_defaults request) key_one) empty_store.idempotency ≡ none
unfolding new_store lookup
key_unused_yet = refl

same_record :
    lookup (idempotency_key_of (with_defaults request) key_one) allowed_later.idempotency
    ≡ lookup (idempotency_key_of (with_defaults request) key_one) refused.idempotency
unfolding create set_quota write_limit new_store lookup insert text_eq quota_key with_defaults
    idempotency_key_of
same_record = refl

create_full_sticks_example :
    create plain_deps allowed_later (pos 9) owner key_one request
    ≡ (allowed_later, err idempotency_pending)
unfolding new_store lookup
create_full_sticks_example =
    create_full_sticks plain_deps empty_store allowed_later (pos 5) (pos 9) owner key_one request
      refl refl key_unused_yet tt same_record

-- A store with a durable boundary in which no quota is configured.
abbrev durable : Store MemoryGovernanceStore
durable = new_store (some new_memory)

refusal :
    memory_api.reserve_allocation new_memory tenant owner
      (allocation_id_of 1)
      (sandbox_id_of 1)
      (pos 5)
    ≡ (new_memory, some GovError.quota_not_configured)
unfolding reserve_allocation new_memory lookup allocation_id_of sandbox_id_of pad8
refusal = refl

create_refused_example :
    let r = create plain_deps durable (pos 5) owner key_one request in
    (r.1 ≡ err (map_gov_error GovError.quota_not_configured))
    × (r.0.sandboxes ≡ durable.sandboxes)
    × (r.0.allocations ≡ durable.allocations)
    × (r.0.quotas ≡ durable.quotas)
    × (r.0.gov ≡ some new_memory)
    × ((k : Text) → lookup k r.0.idempotency ≡ lookup k durable.idempotency)
unfolding new_store lookup
create_refused_example =
    create_refused plain_deps durable new_memory new_memory GovError.quota_not_configured (pos 5)
      owner key_one request refl refl refl refusal

-- The decoder of the creations below knows one body.
abbrev parse_one : Text → Option CreateRequest
parse_one body = if text_eq body (codes "one") then some request else none

abbrev post : HttpRequest
post = record {
  method = codes "POST";
  path = codes "/api/v1/sandboxes";
  owner_id = owner;
  idempotency_key = key_one;
  body = codes "one";
}

abbrev delete_one : HttpRequest
delete_one = record post { method = codes "DELETE"; path = codes "/api/v1/sandboxes/sbx-00000001" }
