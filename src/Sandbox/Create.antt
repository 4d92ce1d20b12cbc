-- ===== src/Sandbox/Create.antt =====
-- `Create` of internal/sandbox/service.go.
use kubebox.Common.{
  ℕ, [], ◌+◌, ◌%◌, ◌^◌, Text, text_eq, is_empty, lookup, insert, delete, pos, leb_ℤ, ◌+ℤ◌, wrap64,
  inc64, Option, none, some, Bool, not, ◌||◌, if◌then◌else◌,
}
use kubebox.Governance.{Time, GovError}
use kubebox.Sandbox.Types.{
  ready, reserved, IdempotencyStatus, pending, succeeded, Quota, CreateRequest, Sandbox,
  IdempotencyRecord, Allocation, Store, Error, invalid_request, quota_not_configured,
  quota_exceeded, resource_gone, idempotency_conflict, idempotency_pending, idempotency_failed,
  failed, Result, ok, err, Deps, gvisor, join_key, quota_key, sandbox_id_of, allocation_id_of,
  seconds, clone_map, clone_sandbox, map_gov_error,
}
use kubebox.Sandbox.Quotas.{materialize, write_count}

-- The lifetime and the runtime class that a request leaves open.
unfoldable pub with_defaults : CreateRequest → CreateRequest
with_defaults req = record req {
  ttl_seconds = if leb_ℤ req.ttl_seconds (pos 0) then pos 1800 else req.ttl_seconds;
  runtime_class = if is_empty req.runtime_class then gvisor else req.runtime_class;
}

-- The guard of `Create`.
abbrev pub is_invalid : Text → Text → CreateRequest → Bool
is_invalid actor key req =
    is_empty actor || is_empty key || is_empty req.tenant_id || is_empty req.template

unfoldable pub idempotency_key_of : CreateRequest → Text → Text
idempotency_key_of req key = join_key req.tenant_id key

unfoldable pub pending_record : Time → Text → Text → Text → CreateRequest → IdempotencyRecord
pending_record now hash actor key req = record {
  tenant_id = req.tenant_id;
  owner_id = actor;
  key = key;
  request_hash = hash;
  status = pending;
  resource_id = [];
  lease_version = 1;
  expires_at = now +ℤ seconds (wrap64 (req.ttl_seconds +ℤ pos 7200));
}

unfoldable pub new_allocation : ℕ → Text → CreateRequest → Allocation
new_allocation n actor req = record {
  id = allocation_id_of n;
  tenant_id = req.tenant_id;
  owner_id = actor;
  sandbox_id = sandbox_id_of n;
  status = reserved;
}

unfoldable pub new_sandbox : ℕ → Time → Text → Text → CreateRequest → Sandbox
new_sandbox n now actor key req = record {
  id = sandbox_id_of n;
  tenant_id = req.tenant_id;
  owner_id = actor;
  template = req.template;
  runtime_class = req.runtime_class;
  resources = clone_map req.resources;
  phase = ready;
  allocation_id = allocation_id_of n;
  idempotency_key = key;
  expires_at = now +ℤ seconds req.ttl_seconds;
  created_at = now;
  updated_at = now;
}

replay_resource : Option Sandbox → Result Sandbox
replay_resource none = err resource_gone
replay_resource (some sb) = ok (clone_sandbox sb)

module _ {G : Type 0} where
  replay_status : IdempotencyStatus → Store G → Text → Result Sandbox
  unfolding replay_resource
  replay_status pending s id = err idempotency_pending
  replay_status succeeded s id = replay_resource (lookup id s.sandboxes)
  replay_status failed s id = err idempotency_failed

  -- The answer to a request whose key has been used before.
  unfoldable pub replay : Store G → IdempotencyRecord → Text → Text → Result Sandbox
  unfolding replay_status
  replay s prior hash actor =
      if not (text_eq prior.request_hash hash) || not (text_eq prior.owner_id actor)
      then err idempotency_conflict
      else replay_status prior.status s prior.resource_id

  unfoldable pub reserve_in_memory : Option Quota → Text → Store G → Store G × Option Error
  reserve_in_memory none key s = (s, some quota_not_configured)
  reserve_in_memory (some q) key s =
      if leb_ℤ q.concurrent_limit q.current_count
      then (s, some quota_exceeded)
      else (write_count s key q (inc64 q.current_count), none)

  unfoldable pub after_reserve :
      Option GovError → Text → Text → CreateRequest → Store G → Store G × Option Error
  after_reserve (some e) idem_key actor req s =
      (record s { idempotency = delete idem_key s.idempotency }, some (map_gov_error e))
  after_reserve none idem_key actor req s =
      let key = quota_key req.tenant_id actor in
      let (s', q) = materialize (lookup key s.quotas) key req.tenant_id actor s in
      (write_count s' key q (inc64 q.current_count), none)

  -- The allocation, the sandbox and the outcome of the request are recorded.
  unfoldable pub commit :
      Store G → ℕ → Text → IdempotencyRecord → Time → Text → Text → CreateRequest → Store G
  unfolding new_allocation new_sandbox
  commit s n idem_key prior now actor key req = record s {
    allocations = insert (allocation_id_of n) (new_allocation n actor req) s.allocations;
    sandboxes = insert (sandbox_id_of n) (new_sandbox n now actor key req) s.sandboxes;
    idempotency =
        insert idem_key (record prior { status = succeeded; resource_id = sandbox_id_of n })
          s.idempotency;
  }

  unfoldable pub finish :
      Store G × Option Error
      → ℕ
      → Text
      → IdempotencyRecord
      → Time
      → Text
      → Text
      → CreateRequest
      → Store G × Result Sandbox
  unfolding commit
  finish (s, some e) n idem_key prior now actor key req = (s, err e)
  finish (s, none) n idem_key prior now actor key req = (
    commit s n idem_key prior now actor key req,
    ok (clone_sandbox (new_sandbox n now actor key req)),
  )

module _ {G : Type 0} (deps : Deps G) where
  unfoldable pub request_hash : CreateRequest → Text
  request_hash req = deps.sha256_hex (deps.marshal req)

  unfoldable pub reserve :
      Option G → ℕ → Text → Time → Text → CreateRequest → Store G → Store G × Option Error
  unfolding reserve_in_memory after_reserve
  reserve none n idem_key now actor req s =
      let key = quota_key req.tenant_id actor in reserve_in_memory (lookup key s.quotas) key s
  reserve (some g) n idem_key now actor req s =
      let (g', e) =
        deps.api.reserve_allocation g req.tenant_id actor (allocation_id_of n) (sandbox_id_of n)
          now in
      after_reserve e idem_key actor req (record s { gov = some g' })

  -- A request whose key has not been used.
  unfoldable pub create_new :
      Store G → Time → Text → Text → CreateRequest → Text → Store G × Result Sandbox
  unfolding reserve finish pending_record
  create_new s now actor key req hash =
      let n = (s.sequence + 1) % 2 ^ 64 in
      let idem_key = idempotency_key_of req key in
      let prior = pending_record now hash actor key req in
      let s' = record s { sequence = n; idempotency = insert idem_key prior s.idempotency } in
      finish (reserve s.gov n idem_key now actor req s') n idem_key prior now actor key req

  unfoldable pub create_known :
      Option IdempotencyRecord
      → Store G
      → Time
      → Text
      → Text
      → CreateRequest
      → Text
      → Store G × Result Sandbox
  unfolding replay create_new
  create_known (some prior) s now actor key req hash = (s, replay s prior hash actor)
  create_known none s now actor key req hash = create_new s now actor key req hash

  unfoldable pub create_valid :
      Store G → Time → Text → Text → CreateRequest → Store G × Result Sandbox
  unfolding create_known request_hash
  create_valid s now actor key req =
      create_known (lookup (idempotency_key_of req key) s.idempotency) s now actor key req
        (request_hash req)

  unfoldable pub create : Store G → Time → Text → Text → CreateRequest → Store G × Result Sandbox
  unfolding create_valid
  create s now actor key req =
      if is_invalid actor key req
      then (s, err invalid_request)
      else create_valid s now actor key (with_defaults req)
