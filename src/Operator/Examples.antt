-- ===== src/Operator/Examples.antt =====
-- Runs of the operator on small inputs.
use kubebox.Common.{
  [], ◌∷◌, ◌++◌, Text, codes, text_eq, text_eq_iff, lookup, insert, pos, Map, Option, none, some,
  true, false, ◌&&◌, Bool-cases, if◌then◌else◌, ◌≡◌, refl, ◌⊎◌, inl, inr, take, starts_with, ◌-ℤ◌,
  ◌+ℤ◌, wrap64, ◌*ℤ◌, trim_prefix, trim_prefix-append, arith,
}
use kubebox.Operator.Reconciler.{
  Claim, Pod, PodClient, found, failing, not_found, ready, with_defaults, expire, pod_of,
  deterministic_pod_name, reconcile_claim, PodResult, ensure, settle, lifetime, serve,
}
use kubebox.Operator.Admission.{
  validate_runtime_class, validate_class_ref, runtime_class_from_class_ref,
}
use kubebox.Operator.Admission.Tiers.{runtime_class_allowed, admitted_class_kept}
use kubebox.Dataplane.Routes.{Url, set}
use kubebox.Dataplane.Admin.{
  Admin, AdminResponse, RouteRequest, serve_http, handle_routes, is_authorized,
}
use kubebox.Dataplane.RouteClient.{
  RouteClient, RouteRegistrar, register, Outgoing, Incoming, Sent, received, ClientError,
  routes_path, instance_path, registrar_of,
}
use kubebox.Dataplane.RouteClient.Delivery.{IsWay}
use kubebox.Operator.Controller.{
  ClaimObject, ClaimApi, add_finalizer, drop_finalizer, requeue, sync_route, of_registrar,
  with_status, fetched, World, Pass, finished, claim_of, claim_finalizer, contains_string,
  five_seconds, reconcile_object,
}
use kubebox.Operator.Controller.Routing.{Routed, reconcile_object-Routed}
use kubebox.Operator.Controller.Finalizer.{IsKept, Cleared, reconcile_object_keeps}
use kubebox.Operator.Reconciler.Outcomes.{IsServed, reconcile_claim-IsServed}

-- A cluster of one namespace, whose pods are up as soon as they are made.
abbrev Cluster : Type 0
Cluster = Map Pod

abbrev started : Pod → Pod
started p = record p { ip = codes "ip"; is_ready = true; is_healthy = true }

abbrev answer : Option Pod → PodResult
answer none = failing not_found
answer (some p) = found p

abbrev small_api : PodClient Cluster
small_api = record {
  get = λ c namespace name. answer (lookup name c);
  create = λ c pod. (insert pod.name (started pod) c, none);
  delete = λ c namespace name. (c, none);
}

abbrev new_claim : Claim
new_claim = record {
  namespace = codes "n";
  name = codes "c";
  uid = codes "u";
  tenant_id = codes "t";
  owner_id = codes "o";
  idempotency_key = codes "k";
  template = codes "p";
  runtime_class = [];
  ttl_seconds = pos 60;
  desired_state = codes "Running";
  phase = [];
  pod_name = [];
  pod_ip = [];
  sandbox_id = [];
  proxy_endpoint = [];
  expires_at = pos 0;
}

is_ready : text_eq (reconcile_claim small_api (λ t. t) [] new_claim (pos 5)).1.phase ready ≡ true
unfolding reconcile_claim text_eq expire with_defaults ensure lookup insert pod_of
    deterministic_pod_name settle
is_ready = refl

reconcile_claim-IsServed_example :
    let out = reconcile_claim small_api (λ t. t) [] new_claim (pos 5) in
    IsServed small_api out.0 out.1 out.2
reconcile_claim-IsServed_example =
    reconcile_claim-IsServed small_api (λ t. t) [] new_claim (pos 5) is_ready

privileged_allowed :
    validate_runtime_class (runtime_class_from_class_ref (codes "privileged")) ≡ none
privileged_allowed = runtime_class_allowed (codes "privileged")

kata_admitted : validate_class_ref (codes "kata") ≡ none
unfolding validate_class_ref validate_runtime_class text_eq
kata_admitted = refl

kata_kept : runtime_class_from_class_ref (codes "kata") ≡ codes "kata"
kata_kept = admitted_class_kept (codes "kata") kata_admitted refl

abbrev base : Text
base = codes "http://edge"

abbrev client : RouteClient
client = record { base_url = base; admin_secret = codes "k" }

-- The one registration that is encoded here.
abbrev served_target : Text
served_target = codes "http://ip:8080"

abbrev marshal : Text → Text → Option Text
marshal id target =
    if text_eq id (codes "c") && text_eq target served_target then some (codes "x") else none

abbrev unmarshal : Text → Option RouteRequest
unmarshal body = some (record { sandbox_id = codes "c"; target = served_target })

abbrev parse_url : Text → Option Url
parse_url target = some (record {
  scheme = codes "http";
  user = none;
  host = codes "ip:8080";
  path = [];
  raw_query = [];
  fragment = [];
})

abbrev path_of : Text → Text
path_of url = trim_prefix url base

abbrev answer_of : Admin × AdminResponse → Admin × Sent
answer_of (a, resp) = (a, received (record { status_code = resp.status; status = []; body = [] }))

abbrev served : Admin → Outgoing → Admin × AdminResponse
served a o =
    serve_http unmarshal parse_url a
      (record { method = o.method; path = path_of o.url; token = o.token; body = o.body })

abbrev send : Admin → Outgoing → Admin × Sent
send a o = answer_of (served a o)

answer_of-received :
    (out : Admin × AdminResponse) (resp : Incoming)
    → (answer_of out).1 ≡ received resp
    → (resp.status_code ≡ out.1.status) × ((answer_of out).0 ≡ out.0)
answer_of-received out resp h = let status : resp.status_code ≡ out.1.status = cc in (status, refl)

marshal-ok :
    (id target body : Text)
    → marshal id target ≡ some body
    → unmarshal (take 65536 body) ≡ some (record { sandbox_id = id; target = target })
marshal-ok id target body h =
    elim (Bool-cases (text_eq id (codes "c") && text_eq target served_target)) [
      | inl hit ↦ ground (arith, hit, text_eq_iff id (codes "c"), text_eq_iff target served_target)
      | inr miss ↦ let bad = rw miss at h in cc
    ]

is_way : IsWay send path_of (λ (a : Admin). a) unmarshal parse_url marshal (λ (t : Text). t) base
is_way = record {
  delivers = λ w o resp h. answer_of-received (served w o) resp h;
  routes_url = trim_prefix-append base routes_path;
  instance_url = λ id d. trim_prefix-append base (instance_path ++ id);
  decodes = marshal-ok;
}

abbrev claim_object : ClaimObject
claim_object = record {
  namespace = codes "n";
  name = codes "c";
  uid = codes "u";
  labels = [];
  finalizers = claim_finalizer ∷ [];
  is_deleting = false;
  class_ref = [];
  template = codes "p";
  ttl_seconds = pos 60;
  desired_state = codes "Running";
  idempotency_key = codes "k";
  phase = [];
  sandbox_ref = [];
  proxy_endpoint = [];
  expires_at = none;
}

-- One object, whose status and the rest of which are written apart.
abbrev status_written : ClaimObject → ClaimObject → ClaimObject
status_written k o = record k {
  phase = o.phase;
  sandbox_ref = o.sandbox_ref;
  proxy_endpoint = o.proxy_endpoint;
  expires_at = o.expires_at;
}

abbrev claim_api : ClaimApi ClaimObject
claim_api = record {
  fetch = λ k namespace name. fetched k;
  update = λ k o. (o, o, none);
  update_status = λ k o. (status_written k o, status_written k o, none);
}

abbrev world : World ClaimObject Cluster Admin
world = record {
  claims = claim_object;
  pods = [];
  routes = record { routes = []; admin_secret = codes "k" };
}

abbrev client_registrar : Option (RouteRegistrar Admin ClientError)
client_registrar = some (registrar_of send (λ (t : Text). none) marshal (λ (t : Text). t) client)

abbrev pass : World ClaimObject Cluster Admin × Pass
pass =
    reconcile_object claim_api small_api client_registrar (λ t. t) world (codes "n") (codes "c")
      (pos 5) (pos 6)

object_ready :
    text_eq (reconcile_claim small_api (λ t. t) [] (claim_of claim_object) (pos 5)).1.phase ready
    ≡ true
unfolding reconcile_claim text_eq expire with_defaults ensure lookup insert pod_of
    deterministic_pod_name settle claim_of runtime_class_from_class_ref
object_ready = refl

pass_finished : pass.1 ≡ finished (pos 30000000000)
unfolding reconcile_object reconcile_claim text_eq expire with_defaults claim_of ensure lookup
    insert pod_of deterministic_pod_name settle add_finalizer requeue sync_route of_registrar
    register serve_http handle_routes is_authorized set contains_string with_status starts_with
    trim_prefix ◌-ℤ◌ ◌+ℤ◌ lifetime wrap64 ◌*ℤ◌ runtime_class_from_class_ref serve drop_finalizer
pass_finished = refl

reconcile_object-Routed_example :
    let done = reconcile_claim small_api (λ t. t) [] (claim_of claim_object) (pos 5) in
    IsServed small_api pass.0.pods done.1 done.2
    × ((pos 30000000000 ≡ five_seconds)
        ⊎ Routed send
            (λ (t : Text). none)
            marshal
            (λ (t : Text). t)
            path_of
            (λ (a : Admin). a)
            unmarshal
            parse_url
            client
            is_way
            done.1
            pass.0.routes)
reconcile_object-Routed_example =
    reconcile_object-Routed send (λ (t : Text). none) marshal (λ (t : Text). t) path_of
      (λ (a : Admin). a) unmarshal parse_url client is_way claim_api small_api (λ t. t) world
      (codes "n") (codes "c") (pos 5) (pos 6) claim_object (pos 30000000000) refl object_ready
      pass_finished

abbrev HasFinalizer : ClaimObject → Type 0
HasFinalizer k = contains_string k.finalizers claim_finalizer ≡ true

held : HasFinalizer claim_object
unfolding contains_string text_eq
held = refl

finalizer_kept : IsKept claim_api HasFinalizer
finalizer_kept = record { update = λ k o h q. h; update_status = λ k o q. q }

reconcile_object_keeps_example :
    HasFinalizer pass.0.claims
    ⊎ Cleared send
        (λ (t : Text). none)
        marshal
        (λ (t : Text). t)
        path_of
        (λ (a : Admin). a)
        unmarshal
        parse_url
        client
        is_way
        claim_api
        small_api
        (λ t. t)
        world
        (codes "n")
        (codes "c")
        (pos 5)
        pass.0.routes
reconcile_object_keeps_example =
    reconcile_object_keeps send (λ (t : Text). none) marshal (λ (t : Text). t) path_of
      (λ (a : Admin). a) unmarshal parse_url client is_way claim_api small_api (λ t. t) HasFinalizer
      world (codes "n") (codes "c") (pos 5) (pos 6) finalizer_kept held
