-- ===== src/Operator/Controller/Routing.antt =====
-- What a pass of internal/operator/controller.go does to the routes at the edge.
use kubebox.Common.{
  Text, text_eq, is_empty, ℤ, Option, none, some, true, false, Bool-cases, ◌≡◌, refl, ◌⊎◌, inl, inr,
}
use kubebox.Governance.{Time}
use kubebox.Dataplane.Routes.{Url, get}
use kubebox.Dataplane.Admin.{Admin, RouteRequest}
use kubebox.Dataplane.Admin.Effects.{Stored}
use kubebox.Dataplane.RouteClient.{
  RouteClient, Outgoing, Sent, ClientError, RouteRegistrar, registrar_of,
}
use kubebox.Dataplane.RouteClient.Delivery.{IsWay, is_dots, register-Stored, unregister_removed}
use kubebox.Operator.Reconciler.{Claim, PodClient, Result, ok, err, reconcile_claim, ready, deleted}
use kubebox.Operator.Reconciler.Outcomes.{IsServed, reconcile_claim-IsServed}
use kubebox.Operator.Controller.{
  ClaimObject, fetched, ClaimApi, RouteError, finished, World, claim_of, five_seconds, target_of,
  of_registrar, sync_route, after_status, after_finalizer, after_reconcile, reconcile_fetched,
  reconcile_object,
}

of_registrar-none :
    {W Er : Type 0} (o : W × Option Er)
    → (of_registrar o).1 ≡ none
    → (o.1 ≡ none) × ((of_registrar o).0 ≡ o.0)
unfolding of_registrar
of_registrar-none (w, none) h = (refl, refl)
of_registrar-none (w, some e) h = cc

module _ {W : Type 0} (send : W → Outgoing → W × Sent) (request_error : Text → Option Text)
    (marshal : Text → Text → Option Text) (path_escape : Text → Text) (path_of : Text → Text)
    (admin : W → Admin) (unmarshal : Text → Option RouteRequest) (parse_url : Text → Option Url)
    (client : RouteClient)
    (way : IsWay send path_of admin unmarshal parse_url marshal path_escape client.base_url) where
  abbrev registrar : RouteRegistrar W ClientError
  registrar = registrar_of send request_error marshal path_escape client

  -- The route that a claim asks for is stored.
  abbrev pub Routed : Claim → W → Type 0
  Routed c w =
      Stored unmarshal parse_url (record { sandbox_id = c.sandbox_id; target = target_of c })
        (admin w)

  -- There is no route for a claim's sandbox, if it has one with a proper name.
  abbrev pub Unrouted : Claim → W → Type 0
  Unrouted c w =
      (is_empty c.sandbox_id ≡ true)
      ⊎ (is_dots c.sandbox_id ≡ true)
      ⊎ (get (admin w).routes c.sandbox_id ≡ none)

  pub sync_route-Routed :
      (w : W) (c : Claim)
      → text_eq c.phase ready ≡ true
      → (sync_route (some registrar) w c).1 ≡ none
      → Routed c (sync_route (some registrar) w c).0
  unfolding sync_route
  sync_route-Routed w c r h = elim (Bool-cases (is_empty c.pod_ip)) [
    | inl blank ↦ let bad = rw (r, blank) at h in cc
    | inr known ↦
        let (made, same) =
          of_registrar-none (registrar.register w c.sandbox_id (target_of c))
            (rw (r, known) at h) in
        rw (r, known, same)
          (register-Stored send request_error marshal path_escape path_of admin unmarshal parse_url
            client way w c.sandbox_id (target_of c) made)
  ]

  pub sync_route-Unrouted :
      (w : W) (c : Claim)
      → text_eq c.phase ready ≡ false
      → text_eq c.phase deleted ≡ true
      → (sync_route (some registrar) w c).1 ≡ none
      → Unrouted c (sync_route (some registrar) w c).0
  unfolding sync_route
  sync_route-Unrouted w c r d h = elim (Bool-cases (is_empty c.sandbox_id)) [
    | inl blank ↦ inl blank
    | inr known ↦ elim (Bool-cases (is_dots c.sandbox_id)) [
      | inl dots ↦ inr (inl dots)
      | inr proper ↦
          let (made, same) =
            of_registrar-none (registrar.unregister w c.sandbox_id) (rw (r, d, known) at h) in
          rw (r, d, known, same)
            (inr (
              inr (
                unregister_removed send request_error marshal path_escape path_of admin unmarshal
                  parse_url client way w c.sandbox_id proper made)))
    ]
  ]

  module _ {K P : Type 0} (claim_api : ClaimApi K) (pod_api : PodClient P)
      (sha256_hex : Text → Text) where
    -- The route error of a pass that ends without an error is none, or makes it due again.
    status_cases :
        (x : K × ClaimObject × Option Text) (e : Option (RouteError ClientError)) (c : Claim)
        (later : Time) (d : ℤ)
        → (after_status claim_api pod_api (some registrar) sha256_hex x e c later).1 ≡ finished d
        → (e ≡ none) ⊎ (d ≡ five_seconds)
    unfolding after_status
    status_cases (k, o, some a) e c later d h = cc
    status_cases (k, o, none) (some e) c later d h = inr cc
    status_cases (k, o, none) none c later d h = inl refl

    finalizer_cases :
        (x : K × ClaimObject × Option Text) (e : Option (RouteError ClientError)) (c : Claim)
        (later : Time) (d : ℤ)
        → (after_finalizer claim_api pod_api (some registrar) sha256_hex x e c later).1 ≡ finished d
        → (e ≡ none) ⊎ (d ≡ five_seconds)
    unfolding after_finalizer
    finalizer_cases (k, o, some a) e c later d h = cc
    finalizer_cases (k, o, none) e c later d h = status_cases _ e c later d h

    reconciled-Routed :
        (world : World K P W) (o : ClaimObject) (out : P × Claim × Result) (later : Time) (d : ℤ)
        → let after =
            after_reconcile claim_api pod_api (some registrar) sha256_hex world o out later in
          text_eq out.1.phase ready ≡ true
          → after.1 ≡ finished d
          → (after.0.pods ≡ out.0) × ((d ≡ five_seconds) ⊎ Routed out.1 after.0.routes)
    unfolding after_reconcile
    reconciled-Routed world o (pods, c, err e) later d r h = cc
    reconciled-Routed world o (pods, c, ok again) later d r h = (
      refl,
      elim (finalizer_cases _ _ c later d h) [
        | inl synced ↦ inr (sync_route-Routed world.routes c r synced)
        | inr soon ↦ inl soon
      ],
    )

    -- After a pass over a claim that makes it Ready and ends without an error, with a client of the
    -- edge as the registrar: either the next pass is due in five seconds, or the routes at the edge
    -- lead the claim's sandbox to port 8080 of its pod's address. In both cases the pod is in the
    -- cluster, ready, healthy and not being deleted, and its address is the claim's.
    pub reconcile_object-Routed :
        (world : World K P W) (namespace name : Text) (now later : Time) (o : ClaimObject) (d : ℤ)
        → claim_api.fetch world.claims namespace name ≡ fetched o
        → let done = reconcile_claim pod_api sha256_hex world.pods (claim_of o) now in
          let after =
            reconcile_object claim_api pod_api
              (some registrar)
              sha256_hex
              world
              namespace
              name
              now
              later in
          text_eq done.1.phase ready ≡ true
          → after.1 ≡ finished d
          → IsServed pod_api after.0.pods done.1 done.2
            × ((d ≡ five_seconds) ⊎ Routed done.1 after.0.routes)
    unfolding reconcile_object reconcile_fetched
    reconcile_object-Routed world namespace name now later o d f r h =
        let done = reconcile_claim pod_api sha256_hex world.pods (claim_of o) now in
        let (same, routed) = reconciled-Routed world o done later d r (rw f at h) in
        let served = reconcile_claim-IsServed pod_api sha256_hex world.pods (claim_of o) now r in
        rw f (rw same served, routed)
