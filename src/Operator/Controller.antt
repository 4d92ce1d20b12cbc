-- ===== src/Operator/Controller.antt =====
-- internal/operator/controller.go: one pass of the controller over a claim's object.
pub mod Routing
pub mod Finalizer
use kubebox.Common.{
  ℕ, [], ◌∷◌, ◌++◌, List, Text, codes, text_eq, is_empty, Map, lookup, ℤ, pos, leb_ℤ, ltb_ℤ, ◌-ℤ◌,
  Option, none, some, Bool, true, false, not, ◌&&◌, ◌||◌, if◌then◌else◌,
}
use kubebox.Governance.{Time}
use kubebox.Dataplane.RouteClient.{RouteRegistrar}
use kubebox.Operator.Admission.{runtime_class_from_class_ref}
use kubebox.Operator.Reconciler.{
  Claim, PodClient, Result, ok, err, ReconcileError, reconcile_claim, provisioning, ready, deleted,
}

abbrev pub claim_finalizer : Text
claim_finalizer = codes "sandbox.kubebox.io/finalizer"

-- `SandboxClaim` of internal/kubeapi/types.go: the fields that the controller reads or writes.
pub record ClaimObject : Type 0 where
  pub namespace : Text
  pub name : Text
  pub uid : Text
  pub labels : Map Text
  pub finalizers : List Text
  -- Whether the deletion timestamp is set.
  pub is_deleting : Bool
  pub class_ref : Text
  pub template : Text
  pub ttl_seconds : ℤ
  pub desired_state : Text
  pub idempotency_key : Text
  pub phase : Text
  pub sandbox_ref : Text
  pub proxy_endpoint : Text
  pub expires_at : Option Time

pub data Fetched : Type 0 where
  fetched : ClaimObject → Fetched
  missing : Fetched
  fetch_failed : Text → Fetched

-- The API of the claims over a state `K`. An update answers the object as the server has it.
pub record ClaimApi (K : Type 0) : Type 0 where
  pub fetch : K → Text → Text → Fetched
  pub update : K → ClaimObject → K × ClaimObject × Option Text
  pub update_status : K → ClaimObject → K × ClaimObject × Option Text

pub data PassError : Type 0 where
  reconcile_failed : ReconcileError → PassError
  api_failed : Text → PassError

pub data RouteError (Er : Type 0) : Type 0 where
  no_pod_ip : RouteError Er
  registrar_failed : Er → RouteError Er

-- `finished d` asks for another pass after `d` nanoseconds, or for none where `d` is zero.
pub data Pass : Type 0 where
  finished : ℤ → Pass
  failed : PassError → Pass

unfoldable pub contains_string : List Text → Text → Bool
contains_string [] wanted = false
contains_string (v ∷ vs) wanted = if text_eq v wanted then true else contains_string vs wanted

unfoldable pub remove_string : List Text → Text → List Text
remove_string [] wanted = []
remove_string (v ∷ vs) wanted =
    let rest = remove_string vs wanted in if not (text_eq v wanted) then v ∷ rest else rest

-- A label that is missing is empty.
abbrev pub or_empty : Option Text → Text
or_empty none = []
or_empty (some v) = v

abbrev pub label : ClaimObject → Text → Text
label o key = or_empty (lookup key o.labels)

-- The zero time.
abbrev pub or_zero : Option Time → Time
or_zero none = pos 0
or_zero (some t) = t

unfoldable pub claim_of : ClaimObject → Claim
claim_of o =
    let owner = label o (codes "kubebox.io/owner") in
    record {
      namespace = o.namespace;
      name = o.name;
      uid = o.uid;
      tenant_id = label o (codes "kubebox.io/tenant");
      owner_id = if is_empty owner then label o (codes "kubebox.io/owner-id") else owner;
      idempotency_key = o.idempotency_key;
      template = o.template;
      runtime_class = runtime_class_from_class_ref o.class_ref;
      ttl_seconds = o.ttl_seconds;
      desired_state = if o.is_deleting then codes "Deleted" else o.desired_state;
      phase = o.phase;
      pod_name = label o (codes "kubebox.io/pod-name");
      pod_ip = [];
      sandbox_id = o.sandbox_ref;
      proxy_endpoint = [];
      expires_at = or_zero o.expires_at;
    }

abbrev pub is_zero : Time → Bool
is_zero t = leb_ℤ t (pos 0) && leb_ℤ (pos 0) t

unfoldable pub with_status : ClaimObject → Claim → ClaimObject
with_status o c = record o {
  phase = c.phase;
  sandbox_ref = c.sandbox_id;
  proxy_endpoint = c.proxy_endpoint;
  expires_at = if is_zero c.expires_at then none else some c.expires_at;
}

abbrev pub five_seconds : ℤ
five_seconds = pos 5000000000

-- How long after a pass without an error the next one is due.
unfoldable pub requeue : Claim → Time → ℤ
requeue c now =
    let delay = c.expires_at -ℤ now in
    if text_eq c.phase provisioning
    then pos 500000000
    else if text_eq c.phase ready && not (is_zero c.expires_at)
    then (if leb_ℤ delay (pos 0)
        then pos 1000000000
        else if ltb_ℤ (pos 30000000000) delay
        then pos 30000000000
        else delay)
    else pos 0

abbrev pub target_of : Claim → Text
target_of c = codes "http://" ++ (c.pod_ip ++ codes ":8080")

module _ {W Er : Type 0} where
  unfoldable pub of_registrar : W × Option Er → W × Option (RouteError Er)
  of_registrar (w, none) = (w, none)
  of_registrar (w, some e) = (w, some (registrar_failed e))

  unfoldable pub sync_route : Option (RouteRegistrar W Er) → W → Claim → W × Option (RouteError Er)
  unfolding of_registrar
  sync_route none w c = (w, none)
  sync_route (some registrar) w c =
      if text_eq c.phase ready
      then (if is_empty c.pod_ip
          then (w, some no_pod_ip)
          else of_registrar (registrar.register w c.sandbox_id (target_of c)))
      else if text_eq c.phase deleted
      then (if is_empty c.sandbox_id
          then (w, none)
          else of_registrar (registrar.unregister w c.sandbox_id))
      else (w, none)

-- The claims, the pods and the routes.
pub record World (K P W : Type 0) : Type 0 where
  pub claims : K
  pub pods : P
  pub routes : W

module _ {K P W Er : Type 0} (claim_api : ClaimApi K) (pod_api : PodClient P)
    (registrar : Option (RouteRegistrar W Er)) (sha256_hex : Text → Text) where
  -- The finalizer that a living claim is given.
  unfoldable pub add_finalizer : K → ClaimObject → Claim → K × ClaimObject × Option Text
  add_finalizer k o c =
      if not (text_eq c.phase deleted)
        && not o.is_deleting
        && not (contains_string o.finalizers claim_finalizer)
      then claim_api.update k (record o { finalizers = o.finalizers ++ (claim_finalizer ∷ []) })
      else (k, o, none)

  -- The finalizer that a deleted claim loses.
  unfoldable pub drop_finalizer : K → ClaimObject → Claim → K × ClaimObject × Option Text
  drop_finalizer k o c =
      if text_eq c.phase deleted && contains_string o.finalizers claim_finalizer
      then claim_api.update k (record o { finalizers = remove_string o.finalizers claim_finalizer })
      else (k, o, none)

  unfoldable pub after_drop : K × ClaimObject × Option Text → Claim → Time → K × Pass
  after_drop (k, o, some e) c later = (k, failed (api_failed e))
  after_drop (k, o, none) c later = (k, finished (requeue c later))

  unfoldable pub after_status :
      K × ClaimObject × Option Text → Option (RouteError Er) → Claim → Time → K × Pass
  unfolding after_drop
  after_status (k, o, some e) route_error c later = (k, failed (api_failed e))
  after_status (k, o, none) (some e) c later = (k, finished five_seconds)
  after_status (k, o, none) none c later = after_drop (drop_finalizer k o c) c later

  unfoldable pub after_finalizer :
      K × ClaimObject × Option Text → Option (RouteError Er) → Claim → Time → K × Pass
  unfolding after_status
  after_finalizer (k, o, some e) route_error c later = (k, failed (api_failed e))
  after_finalizer (k, o, none) route_error c later =
      after_status (claim_api.update_status k (with_status o c)) route_error c later

  -- What follows the reconciler's pass over the claim.
  unfoldable pub after_reconcile :
      World K P W → ClaimObject → P × Claim × Result → Time → World K P W × Pass
  unfolding after_finalizer
  after_reconcile world o (pods, c, err e) later =
      (record world { pods = pods }, failed (reconcile_failed e))
  after_reconcile world o (pods, c, ok again) later =
      let (routes, route_error) = sync_route registrar world.routes c in
      let (claims, pass) = after_finalizer (add_finalizer world.claims o c) route_error c later in
      (record { claims = claims; pods = pods; routes = routes }, pass)

  unfoldable pub reconcile_fetched : World K P W → Fetched → Time → Time → World K P W × Pass
  unfolding after_reconcile
  reconcile_fetched world missing now later = (world, finished (pos 0))
  reconcile_fetched world (fetch_failed e) now later = (world, failed (api_failed e))
  reconcile_fetched world (fetched o) now later =
      after_reconcile world o (reconcile_claim pod_api sha256_hex world.pods (claim_of o) now) later

  -- `Reconcile`; the clock is read at `now` and, for the next pass, at `later`.
  unfoldable pub reconcile_object : World K P W → Text → Text → Time → Time → World K P W × Pass
  unfolding reconcile_fetched
  reconcile_object world namespace name now later =
      reconcile_fetched world (claim_api.fetch world.claims namespace name) now later
