-- ===== src/Operator/Reconciler.antt =====
-- internal/operator/reconciler.go: one pass over a claim.
pub mod Outcomes
use kubebox.Common.{
  ℕ, [], ◌∷◌, ◌++◌, Text, codes, text_eq, is_empty, take, Map, ℤ, pos, leb_ℤ, ltb_ℤ, ◌+ℤ◌, ◌*ℤ◌,
  wrap64, Option, none, some, Bool, true, false, not, ◌&&◌, ◌||◌, if◌then◌else◌,
}
use kubebox.Governance.{Time}

-- The type `ClaimPhase` is a string: the status of a claim may hold any.
abbrev pub provisioning : Text
provisioning = codes "Provisioning"

abbrev pub ready : Text
ready = codes "Ready"

abbrev pub draining : Text
draining = codes "Draining"

abbrev pub deleted : Text
deleted = codes "Deleted"

abbrev pub failed : Text
failed = codes "Failed"

pub record Claim : Type 0 where
  pub namespace : Text
  pub name : Text
  pub uid : Text
  pub tenant_id : Text
  pub owner_id : Text
  pub idempotency_key : Text
  pub template : Text
  pub runtime_class : Text
  pub ttl_seconds : ℤ
  pub desired_state : Text
  pub phase : Text
  pub pod_name : Text
  pub pod_ip : Text
  pub sandbox_id : Text
  pub proxy_endpoint : Text
  pub expires_at : Time

pub record Pod : Type 0 where
  pub namespace : Text
  pub name : Text
  pub runtime_class : Text
  pub sandbox_id : Text
  pub owner_uid : Text
  pub ip : Text
  pub labels : Map Text
  pub is_ready : Bool
  pub is_healthy : Bool
  pub is_deleted : Bool

pub data PodError : Type 0 where
  not_found already_exists : PodError
  other : Text → PodError

pub data PodResult : Type 0 where
  found : Pod → PodResult
  failing : PodError → PodResult

-- The interface `PodClient` over the state of a cluster.
pub record PodClient (P : Type 0) : Type 0 where
  pub get : P → Text → Text → PodResult
  pub create : P → Pod → P × Option PodError
  pub delete : P → Text → Text → P × Option PodError

pub data ReconcileError : Type 0 where
  invalid_claim pod_is_deleted : ReconcileError
  pod_error : PodError → ReconcileError

-- `ok true` asks for another pass.
pub data Result : Type 0 where
  ok : Bool → Result
  err : ReconcileError → Result

-- The zero time.
abbrev is_zero : Time → Bool
is_zero t = leb_ℤ t (pos 0) && leb_ℤ (pos 0) t

unfoldable pub lifetime : ℤ → ℤ
lifetime ttl_seconds = wrap64 (ttl_seconds *ℤ pos 1000000000)

unfoldable pub with_defaults : Claim → Claim
with_defaults c = record c {
  runtime_class = if is_empty c.runtime_class then codes "gvisor" else c.runtime_class;
  ttl_seconds = if leb_ℤ c.ttl_seconds (pos 0) then pos 1800 else c.ttl_seconds;
}

-- A claim whose time is up is to be deleted.
unfoldable pub expire : Claim → Time → Claim
expire c now =
    if not (text_eq c.desired_state deleted)
      && not (is_zero c.expires_at)
      && not (ltb_ℤ now c.expires_at)
    then record c { desired_state = deleted }
    else c

-- The pod that a claim asks for.
unfoldable pub pod_of : Claim → Pod
pod_of c = record {
  namespace = c.namespace;
  name = c.pod_name;
  runtime_class = c.runtime_class;
  sandbox_id = c.name;
  owner_uid = c.uid;
  ip = [];
  labels =
      (codes "kubebox.io/tenant", c.tenant_id)
      ∷ (codes "kubebox.io/owner", c.owner_id)
      ∷ (codes "kubebox.io/claim", c.name)
      ∷ (codes "kubebox.io/workload", codes "sandbox")
      ∷ [];
  is_ready = false;
  is_healthy = false;
  is_deleted = false;
}

unfoldable pub serve : Claim → Pod → Time → Claim
serve c pod now = record c {
  phase = ready;
  sandbox_id = c.name;
  pod_ip = pod.ip;
  proxy_endpoint = codes "envd-proxy.sandbox-system.svc:8080";
  expires_at = if is_zero c.expires_at then now +ℤ lifetime c.ttl_seconds else c.expires_at;
}

-- What the state of the pod makes of the claim.
unfoldable pub settle : Claim → Pod → Time → Claim × Result
unfolding serve
settle c pod now =
    if pod.is_deleted
    then (record c { phase = failed }, err pod_is_deleted)
    else if not pod.is_ready || not pod.is_healthy
    then (c, ok true)
    else (serve c pod now, ok false)

-- `sha256_hex` is the hexadecimal SHA-256 of a text.
module _ {P : Type 0} (api : PodClient P) (sha256_hex : Text → Text) where
  unfoldable pub deterministic_pod_name : Text → Text → Text
  deterministic_pod_name tenant_id key =
      codes "sbx-" ++ take 20 (sha256_hex (tenant_id ++ (0 ∷ key)))

  after_delete : P × Option PodError → Claim → P × Claim × Result
  after_delete (cluster, some (other e)) c = (cluster, c, err (pod_error (other e)))
  after_delete (cluster, some already_exists) c = (cluster, c, err (pod_error already_exists))
  after_delete (cluster, _) c =
      (cluster, record c { phase = deleted; proxy_endpoint = []; expires_at = pos 0 }, ok false)

  unfoldable pub reconcile_delete : P → Claim → P × Claim × Result
  unfolding after_delete
  reconcile_delete cluster c =
      let c' = record c {
        phase = draining;
        pod_name =
            if is_empty c.pod_name
            then deterministic_pod_name c.tenant_id c.idempotency_key
            else c.pod_name;
      } in
      after_delete (api.delete cluster c'.namespace c'.pod_name) c'

  settle_found : PodResult → P → Claim → Time → P × Claim × Result
  settle_found (failing e) cluster c now = (cluster, c, err (pod_error e))
  settle_found (found pod) cluster c now = let (c', r) = settle c pod now in (cluster, c', r)

  -- The pod is read again after its creation, and where somebody else has created it.
  after_create : P × Option PodError → Claim → Time → P × Claim × Result
  unfolding settle_found
  after_create (cluster, some not_found) c now =
      (cluster, record c { phase = failed }, err (pod_error not_found))
  after_create (cluster, some (other e)) c now =
      (cluster, record c { phase = failed }, err (pod_error (other e)))
  after_create (cluster, _) c now =
      settle_found (api.get cluster c.namespace c.pod_name) cluster c now

  after_get : PodResult → P → Claim → Time → P × Claim × Result
  unfolding after_create settle_found
  after_get (failing not_found) cluster c now = after_create (api.create cluster (pod_of c)) c now
  after_get r cluster c now = settle_found r cluster c now

  unfoldable pub ensure : P → Claim → Time → P × Claim × Result
  unfolding after_get
  ensure cluster c now =
      let c' = record c {
        phase = provisioning;
        pod_name = deterministic_pod_name c.tenant_id c.idempotency_key;
      } in
      after_get (api.get cluster c'.namespace c'.pod_name) cluster c' now

  unfoldable pub reconcile_claim : P → Claim → Time → P × Claim × Result
  reconcile_claim cluster claim now =
      let c = expire (with_defaults claim) now in
      if text_eq c.desired_state deleted
      then reconcile_delete cluster c
      else if text_eq c.phase deleted
      then (cluster, c, ok false)
      else ensure cluster c now

  -- A nil client or claim is refused.
  unfoldable pub reconcile : Option P → Option Claim → Time → Option P × Option Claim × Result
  reconcile (some cluster) (some claim) now =
      let (cluster', claim', r) = reconcile_claim cluster claim now in
      (some cluster', some claim', r)
  reconcile cluster claim now = (cluster, claim, err invalid_claim)
