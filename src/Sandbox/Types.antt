-- ===== src/Sandbox/Types.antt =====
-- The types and the small helpers of internal/sandbox/service.go.
use kubebox.Common.{
  ℕ, ◌++◌, [], ◌∷◌, Text, codes, Map, insert, ℤ, pos, wrap64, ◌*ℤ◌, Option, none, some, pad8,
  pad8_inj, ◌≡◌,
}
use kubebox.Governance.{Time, GovError, GovernanceStore}

pub data Phase : Type 0 where
  provisioning ready draining deleted failed : Phase

pub data AllocationStatus : Type 0 where
  reserved released : AllocationStatus

pub data IdempotencyStatus : Type 0 where
  pending succeeded failed : IdempotencyStatus

pub record Quota : Type 0 where
  pub tenant_id : Text
  pub owner_id : Text
  pub concurrent_limit : ℤ
  pub current_count : ℤ

-- `resources` is `none` for a nil map.
pub record CreateRequest : Type 0 where
  pub tenant_id : Text
  pub template : Text
  pub runtime_class : Text
  pub ttl_seconds : ℤ
  pub resources : Option (Map Text)

pub record Sandbox : Type 0 where
  pub id : Text
  pub tenant_id : Text
  pub owner_id : Text
  pub template : Text
  pub runtime_class : Text
  pub resources : Option (Map Text)
  pub phase : Phase
  pub allocation_id : Text
  pub idempotency_key : Text
  pub expires_at : Time
  pub created_at : Time
  pub updated_at : Time

pub record IdempotencyRecord : Type 0 where
  pub tenant_id : Text
  pub owner_id : Text
  pub key : Text
  pub request_hash : Text
  pub status : IdempotencyStatus
  pub resource_id : Text
  pub lease_version : ℕ
  pub expires_at : Time

pub record Allocation : Type 0 where
  pub id : Text
  pub tenant_id : Text
  pub owner_id : Text
  pub sandbox_id : Text
  pub status : AllocationStatus

-- `gov` is `none` for the store that works in memory alone. The mutex makes each method one step.
pub record Store (G : Type 0) : Type 0 where
  pub sequence : ℕ
  pub sandboxes : Map Sandbox
  pub allocations : Map Allocation
  pub idempotency : Map IdempotencyRecord
  pub quotas : Map Quota
  pub gov : Option G

pub data Error : Type 0 where
  invalid_request quota_not_configured quota_exceeded quota_below_usage quota_corrupt : Error
  allocation_not_found not_found resource_gone invalid_transition : Error
  idempotency_conflict idempotency_pending idempotency_failed : Error
  -- An error of the durable boundary that is passed on as it is.
  unmapped : GovError → Error

pub data Result {ℓ} (A : Type ℓ) : Type ℓ where
  ok : A → Result A
  err : Error → Result A

-- What the store calls and does not implement: the durable boundary, `json.Marshal` of a request
-- and the hexadecimal SHA-256 of a text.
pub record Deps (G : Type 0) : Type 0 where
  pub api : GovernanceStore G
  pub marshal : CreateRequest → Text
  pub sha256_hex : Text → Text

abbrev pub gvisor : Text
gvisor = codes "gvisor"

-- The byte 0 between two parts of a key.
abbrev pub join_key : Text → Text → Text
join_key a b = a ++ (0 ∷ b)

unfoldable pub quota_key : Text → Text → Text
quota_key tenant_id owner_id = join_key tenant_id owner_id

unfoldable pub sandbox_id_of : ℕ → Text
sandbox_id_of n = codes "sbx-" ++ pad8 n

unfoldable pub allocation_id_of : ℕ → Text
allocation_id_of n = codes "alloc-" ++ pad8 n

pub allocation_id_of_inj : (m n : ℕ) → allocation_id_of m ≡ allocation_id_of n → m ≡ n
unfolding allocation_id_of
allocation_id_of_inj m n h = pad8_inj m n (cc)

pub sandbox_id_of_inj : (m n : ℕ) → sandbox_id_of m ≡ sandbox_id_of n → m ≡ n
unfolding sandbox_id_of
sandbox_id_of_inj m n h = pad8_inj m n (cc)

-- `time.Duration(n) * time.Second`, which wraps around at 64 bits.
unfoldable pub seconds : ℤ → ℤ
seconds n = wrap64 (n *ℤ pos 1000000000)

copy_entries : Map Text → Map Text
copy_entries [] = []
copy_entries ((k, v) ∷ m) = insert k v (copy_entries m)

unfoldable pub clone_map : Option (Map Text) → Option (Map Text)
unfolding copy_entries
clone_map none = none
clone_map (some m) = some (copy_entries m)

unfoldable pub clone_sandbox : Sandbox → Sandbox
clone_sandbox sb = record sb { resources = clone_map sb.resources }

unfoldable pub map_gov_error : GovError → Error
map_gov_error GovError.quota_exceeded = quota_exceeded
map_gov_error GovError.quota_not_configured = quota_not_configured
map_gov_error GovError.quota_below_usage = quota_below_usage
map_gov_error GovError.quota_corrupt = quota_corrupt
map_gov_error GovError.allocation_not_found = allocation_not_found
map_gov_error GovError.allocation_state = allocation_not_found
map_gov_error e = unmapped e
