-- ===== src/Operator/Controller/Finalizer.antt =====
-- When a claim's object loses its finalizer in internal/operator/controller.go.
use kubebox.Common.{
  [], ◌∷◌, ◌++◌, List, Text, text_eq, text_eq_iff, text_eq_refl, Option, none, some, true, false,
  not, ◌&&◌, Bool-cases, ◌≡◌, refl, ◌⊎◌, inl, inr, arith,
}
use kubebox.Governance.{Time}
use kubebox.Dataplane.Routes.{Url}
use kubebox.Dataplane.Admin.{Admin, RouteRequest}
use kubebox.Dataplane.RouteClient.{
  RouteClient, Outgoing, Sent, ClientError, RouteRegistrar, registrar_of,
}
use kubebox.Dataplane.RouteClient.Delivery.{IsWay}
use kubebox.Operator.Reconciler.{Claim, PodClient, Result, ok, err, reconcile_claim, ready, deleted}
use kubebox.Operator.Controller.{
  ClaimObject, Fetched, fetched, missing, fetch_failed, ClaimApi, RouteError, World, claim_of,
  claim_finalizer, contains_string, sync_route, with_status, add_finalizer, drop_finalizer,
  after_drop, after_status, after_finalizer, after_reconcile, reconcile_fetched, reconcile_object,
}
use kubebox.Operator.Controller.Routing.{Unrouted, sync_route-Unrouted}

contains_string-append : (vs : List Text) (v : Text) → contains_string (vs ++ (v ∷ [])) v ≡ true
unfolding contains_string
contains_string-append [] v = rw (text_eq_refl v) refl
contains_string-append (x ∷ vs) v = ground (arith, contains_string-append vs v)

unready : (p : Text) → text_eq p deleted ≡ true → text_eq p ready ≡ false
unfolding text_eq
unready p h = rw ((text_eq_iff p deleted).0 h) refl

-- What is kept true of the claims: by an update that carries the finalizer, and by an update of the
-- status.
pub record IsKept {K : Type 0} (claim_api : ClaimApi K) (Q : K → Type 0) : Type 0 where
  pub update :
      (k : K) (o : ClaimObject)
      → contains_string o.finalizers claim_finalizer ≡ true
      → Q k
      → Q (claim_api.update k o).0
  pub update_status : (k : K) (o : ClaimObject) → Q k → Q (claim_api.update_status k o).0

module _ {K P W Er : Type 0} (claim_api : ClaimApi K) (pod_api : PodClient P)
    (registrar : Option (RouteRegistrar W Er)) (sha256_hex : Text → Text) (Q : K → Type 0)
    (kept : IsKept claim_api Q) where
  add_finalizer_keeps :
      (k : K) (o : ClaimObject) (c : Claim)
      → Q k
      → Q (add_finalizer claim_api pod_api registrar sha256_hex k o c).0
  unfolding add_finalizer
  add_finalizer_keeps k o c q =
      elim (Bool-cases (
        not (text_eq c.phase deleted)
        && not o.is_deleting
        && not (contains_string o.finalizers claim_finalizer))) [
          | inl lacking ↦
              rw lacking (kept.update k _ (contains_string-append o.finalizers claim_finalizer) q)
          | inr fine ↦ rw fine q
        ]

  -- The pass is past its removal of the route, and the claim is deleted.
  abbrev Freed : Option (RouteError Er) → Claim → Type 0
  Freed e c = (e ≡ none) × (text_eq c.phase deleted ≡ true)

  drop_keeps :
      (x : K × ClaimObject × Option Text) (c : Claim) (later : Time)
      → Q x.0
      → Q (after_drop claim_api pod_api registrar sha256_hex x c later).0
  unfolding after_drop
  drop_keeps (k, o, some e) c later q = q
  drop_keeps (k, o, none) c later q = q

  drop_finalizer_keeps :
      (k : K) (o : ClaimObject) (c : Claim)
      → text_eq c.phase deleted ≡ false
      → Q k
      → Q (drop_finalizer claim_api pod_api registrar sha256_hex k o c).0
  unfolding drop_finalizer
  drop_finalizer_keeps k o c live q = rw live q

  status_keeps :
      (x : K × ClaimObject × Option Text) (e : Option (RouteError Er)) (c : Claim) (later : Time)
      → Q x.0
      → Q (after_status claim_api pod_api registrar sha256_hex x e c later).0 ⊎ Freed e c
  unfolding after_status
  status_keeps (k, o, some a) e c later q = inl q
  status_keeps (k, o, none) (some e) c later q = inl q
  status_keeps (k, o, none) none c later q = elim (Bool-cases (text_eq c.phase deleted)) [
    | inl gone ↦ inr (refl, gone)
    | inr live ↦ inl (
        drop_keeps (drop_finalizer claim_api pod_api registrar sha256_hex k o c) c later
          (drop_finalizer_keeps k o c live q))
  ]

  finalizer_keeps :
      (x : K × ClaimObject × Option Text) (e : Option (RouteError Er)) (c : Claim) (later : Time)
      → Q x.0
      → Q (after_finalizer claim_api pod_api registrar sha256_hex x e c later).0 ⊎ Freed e c
  unfolding after_finalizer
  finalizer_keeps (k, o, some a) e c later q = inl q
  finalizer_keeps (k, o, none) e c later q =
      status_keeps _ e c later (kept.update_status k (with_status o c) q)

  pub reconciled_keeps :
      (world : World K P W) (o : ClaimObject) (out : P × Claim × Result) (later : Time)
      → let after = after_reconcile claim_api pod_api registrar sha256_hex world o out later in
        let synced = sync_route registrar world.routes out.1 in
        Q world.claims
        → Q after.0.claims
          ⊎ ((synced.1 ≡ none) × (text_eq out.1.phase deleted ≡ true) × (after.0.routes ≡ synced.0))
  unfolding after_reconcile
  reconciled_keeps world o (pods, c, err e) later q = inl q
  reconciled_keeps world o (pods, c, ok again) later q =
      elim (finalizer_keeps _ _ c later (add_finalizer_keeps world.claims o c q)) [
        | inl still ↦ inl still
        | inr (synced, gone) ↦ inr (synced, gone, refl)
      ]

module _ {W : Type 0} (send : W → Outgoing → W × Sent) (request_error : Text → Option Text)
    (marshal : Text → Text → Option Text) (path_escape : Text → Text) (path_of : Text → Text)
    (admin : W → Admin) (unmarshal : Text → Option RouteRequest) (parse_url : Text → Option Url)
    (client : RouteClient)
    (way : IsWay send path_of admin unmarshal parse_url marshal path_escape client.base_url)
    {K P : Type 0} (claim_api : ClaimApi K) (pod_api : PodClient P) (sha256_hex : Text → Text) where
  abbrev registrar : RouteRegistrar W ClientError
  registrar = registrar_of send request_error marshal path_escape client

  -- The object of a claim that a pass makes Deleted, without a route of its sandbox at the edge.
  pub record Cleared (world : World K P W) (namespace name : Text) (now : Time) (routes : W)
      : Type 0 where
    pub object : ClaimObject
    pub there : claim_api.fetch world.claims namespace name ≡ fetched object
    pub gone :
        text_eq
          (reconcile_claim pod_api sha256_hex world.pods (claim_of object) now).1.phase
          deleted
        ≡ true
    pub unrouted :
        Unrouted send request_error marshal path_escape path_of admin unmarshal parse_url client way
          (reconcile_claim pod_api sha256_hex world.pods (claim_of object) now).1
          routes

  fetched_keeps :
      (Q : K → Type 0) (world : World K P W) (namespace name : Text) (now later : Time)
      (f : Fetched)
      → IsKept claim_api Q
      → Q world.claims
      → claim_api.fetch world.claims namespace name ≡ f
      → let after =
          reconcile_fetched claim_api pod_api (some registrar) sha256_hex world f now later in
        Q after.0.claims ⊎ Cleared world namespace name now after.0.routes
  unfolding reconcile_fetched
  fetched_keeps Q world namespace name now later missing kept q f = inl q
  fetched_keeps Q world namespace name now later (fetch_failed e) kept q f = inl q
  fetched_keeps Q world namespace name now later (fetched o) kept q f =
      let done = reconcile_claim pod_api sha256_hex world.pods (claim_of o) now in
      elim (reconciled_keeps claim_api pod_api (some registrar) sha256_hex Q kept world o done later
        q) [
          | inl still ↦ inl still
          | inr (synced, gone, same) ↦ inr (record {
            object = o;
            there = f;
            gone = gone;
            unrouted = rw same (
                sync_route-Unrouted send request_error marshal path_escape path_of admin unmarshal
                  parse_url client way world.routes done.1 (unready _ gone) gone synced);
          })
        ]

  -- Whatever is kept by the updates that carry the finalizer and by those of a status is kept by a
  -- pass, errors included, unless the pass has found the claim's object, made the claim Deleted and
  -- left no route of its sandbox at the edge, if the claim has a sandbox with a proper name: only then
  -- is an object written without its finalizer. The registrar is a client of the edge.
  pub reconcile_object_keeps :
      (Q : K → Type 0) (world : World K P W) (namespace name : Text) (now later : Time)
      → IsKept claim_api Q
      → Q world.claims
      → let after =
          reconcile_object claim_api pod_api
            (some registrar)
            sha256_hex
            world
            namespace
            name
            now
            later in
        Q after.0.claims ⊎ Cleared world namespace name now after.0.routes
  unfolding reconcile_object
  reconcile_object_keeps Q world namespace name now later kept q =
      fetched_keeps Q world namespace name now later _ kept q refl
