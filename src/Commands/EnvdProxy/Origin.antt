-- ===== src/Commands/EnvdProxy/Origin.antt =====
-- Where the routes of the edge, and the targets of its forwarded requests, come from.
use mathlib.Core.List.{Memᴰ}
use kubebox.Common.{
  ◌≤◌, codes, length, ltb, is_empty, ◌∷◌, [], List, Text, lookup, Option, none, some, ◌≡◌, refl,
  subst, ◌∙◌, Bool, true, false, Bool-cases, ◌⊎◌, inl, inr, arith,
}
use kubebox.Governance.{Time}
use kubebox.Dataplane.Token.{Codec, TokenIssuer, new_token_issuer}
use kubebox.Dataplane.Routes.{Url, get, new_route_registry}
use kubebox.Dataplane.Proxy.{Request, ReverseProxy, forward, handle}
use kubebox.Dataplane.Proxy.Outgoing.{IsReverseProxy}
use kubebox.Dataplane.Proxy.Identity.{IsForwarded, handle-IsForwarded}
use kubebox.Dataplane.Admin.{RouteRequest, new_admin}
use kubebox.Dataplane.Admin.Origin.{IsRegistration, serve_http-origin, unregister-kept}
use kubebox.Dataplane.Health.{HealthMonitor, HttpClient, new_health_monitor, probe, check_route}
use kubebox.Commands.EnvdProxy.{
  boot, serving, Edge, Event, request, ticked, probed, Reply, proxied, admin_of, monitor_of,
  admin_request, is_internal, administer, boot_issued, start_pass, probe_pending, dispatch,
  edge_step, edge_run, edge_of,
}

check_route-kept :
    (m : HealthMonitor) (j id : Text) (healthy : Bool) (u : Url)
    → get (check_route m j healthy).0.routes id ≡ some u
    → get m.routes id ≡ some u
unfolding check_route
check_route-kept m j id true u h = h
check_route-kept m j id false u h = ground (arith, unregister-kept m.routes j id u, h)

-- What `main` serves.
boot_serving :
    (getenv : Text → Text) (addr : Text) (e : Edge)
    → boot getenv ≡ serving addr e
    → let token_secret = getenv (codes "KUBEBOX_TOKEN_SECRET") in
      let admin_secret = getenv (codes "KUBEBOX_ADMIN_SECRET") in
      (32 ≤ length token_secret)
      × (is_empty admin_secret ≡ false)
      × (e ≡ edge_of (record { secret = token_secret }) admin_secret)
unfolding boot boot_issued new_token_issuer
boot_serving getenv addr e h =
    elim (Bool-cases (ltb (length (getenv (codes "KUBEBOX_TOKEN_SECRET"))) 32)) [
      | inl short ↦ absurd (ground (arith, short, h))
      | inr long ↦ elim (Bool-cases (is_empty (getenv (codes "KUBEBOX_ADMIN_SECRET")))) [
        | inl unset ↦ absurd (ground (arith, long, unset, h))
        | inr set ↦ (ground (arith, long), set, ground (arith, long, set, h))
      ]
    ]

module _ (codec : Codec) (proxy : ReverseProxy) (unmarshal : Text → Option RouteRequest)
    (parse_url : Text → Option Url) where
  abbrev step_of : Edge → Event → Edge × Option Reply
  step_of = edge_step codec proxy unmarshal parse_url

  abbrev run_of : Edge → List Event → Edge
  run_of = edge_run codec proxy unmarshal parse_url

  -- An event that registers a route under a secret.
  abbrev pub Registering : Text → Event → Text → Url → Type 0
  Registering secret (request now r body) id u =
      (is_internal r.url.path ≡ true)
      × IsRegistration unmarshal parse_url secret (admin_request r body) id u
  Registering secret ticked id u = ⊥
  Registering secret (probed client j) id u = ⊥

  -- One of some events has registered a route.
  pub record IsRegistered (secret : Text) (events : List Event) (id : Text) (u : Url) : Type 0 where
    pub event : Event
    pub happened : Memᴰ event events
    pub registering : Registering secret event id u

  start_pass-routes : (e : Edge) (p : _) → (start_pass p e).routes ≡ e.routes
  unfolding start_pass
  start_pass-routes e [] = refl
  start_pass-routes e (x ∷ rest) = refl

  pending-origin :
      (e : Edge) (o : Option Url) (client : HttpClient) (j id : Text) (u : Url)
      → get (probe_pending o client j e).routes id ≡ some u
      → get e.routes id ≡ some u
  unfolding probe_pending
  pending-origin e none client j id u h = h
  pending-origin e (some t) client j id u h =
      check_route-kept (monitor_of e) j id (probe client t) u h

  dispatch-origin :
      (e : Edge) (now : Time) (r : Request) (body : Option Text) (id : Text) (u : Url)
      → get (dispatch codec proxy unmarshal parse_url e now r body).0.routes id ≡ some u
      → (get e.routes id ≡ some u) ⊎ Registering e.admin_secret (request now r body) id u
  unfolding dispatch administer new_admin
  dispatch-origin e now r body id u h = elim (Bool-cases (is_internal r.url.path)) [
    | inl inside ↦
        elim (serve_http-origin unmarshal parse_url (admin_of e) (admin_request r body) id u
          (rw inside at h)) [ inl old ↦ inl old | inr new ↦ inr (inside, new) ]
    | inr outside ↦ inl (rw outside at h)
  ]

  step-origin :
      (e : Edge) (x : Event) (id : Text) (u : Url)
      → get (step_of e x).0.routes id ≡ some u
      → (get e.routes id ≡ some u) ⊎ Registering e.admin_secret x id u
  unfolding edge_step
  step-origin e (request now r body) id u h = dispatch-origin e now r body id u h
  step-origin e ticked id u h = inl (rw (start_pass-routes e e.pending) at h)
  step-origin e (probed client j) id u h =
      inl (pending-origin e (lookup j e.pending) client j id u h)

  step-secret :
      (e : Edge) (x : Event)
      → ((step_of e x).0.admin_secret ≡ e.admin_secret) × ((step_of e x).0.issuer ≡ e.issuer)
  unfolding edge_step dispatch administer start_pass probe_pending
  step-secret e (request now r body) = ground arith
  step-secret e ticked = ground arith
  step-secret e (probed client j) = ground arith

  -- Every route after a run of the edge was there before it, or an event of the run registered it
  -- with the admin secret.
  pub run-origin :
      (e : Edge) (events : List Event) (id : Text) (u : Url)
      → get (run_of e events).routes id ≡ some u
      → (get e.routes id ≡ some u) ⊎ IsRegistered e.admin_secret events id u
  unfolding edge_run
  run-origin e [] id u h = inl h
  run-origin e (x ∷ rest) id u h = elim (run-origin (step_of e x).0 rest id u h) [
    | inl old ↦ elim (step-origin e x id u old) [
      | inl older ↦ inl older
      | inr new ↦ inr (record { event = x; happened = Memᴰ.head refl; registering = new })
    ]
    | inr later ↦ inr (record {
      event = later.event;
      happened = Memᴰ.tail later.happened;
      registering =
          subst (λ s. Registering s later.event id u) (step-secret e x).0 later.registering;
    })
  ]

  run-issuer : (e : Edge) (events : List Event) → (run_of e events).issuer ≡ e.issuer
  unfolding edge_run
  run-issuer e [] = refl
  run-issuer e (x ∷ rest) = run-issuer (step_of e x).0 rest ∙ (step-secret e x).1

  -- What stands behind a request that an edge forwards after some events.
  pub record IsAdmitted (issuer : TokenIssuer) (secret : Text) (events : List Event) (now : Time)
      (r out : Request) : Type 0 where
    pub outside : is_internal r.url.path ≡ false
    pub forwarded :
        IsForwarded codec proxy issuer (run_of (edge_of issuer secret) events).routes now r out
    pub registered : IsRegistered secret events forwarded.sandbox_id forwarded.target

  booted_origin :
      (issuer : TokenIssuer) (secret : Text) (events : List Event) (id : Text) (u : Url)
      → get (run_of (edge_of issuer secret) events).routes id ≡ some u
      → IsRegistered secret events id u
  unfolding edge_of new_health_monitor get new_route_registry lookup
  booted_origin issuer secret events id u h =
      elim (run-origin (edge_of issuer secret) events id u h) [ inl old ↦ cc | inr new ↦ new ]

  dispatched_forward :
      (e : Edge) (now : Time) (r out : Request) (body : Option Text)
      → (dispatch codec proxy unmarshal parse_url e now r body).1 ≡ some (proxied (forward out))
      → (is_internal r.url.path ≡ false)
        × (handle codec proxy e.issuer e.routes now r ≡ forward out)
  unfolding dispatch administer
  dispatched_forward e now r out body h = elim (Bool-cases (is_internal r.url.path)) [
    | inl inside ↦ absurd (ground (arith, inside, h))
    | inr outside ↦ (outside, cc)
  ]

  edge_step-IsAdmitted :
      (issuer : TokenIssuer) (secret : Text) (events : List Event) (now : Time) (r out : Request)
      (body : Option Text)
      → IsReverseProxy proxy
      → (edge_step codec proxy unmarshal parse_url
          (run_of (edge_of issuer secret) events)
          (request now r body)).1
        ≡ some (proxied (forward out))
      → IsAdmitted issuer secret events now r out
  unfolding edge_step edge_of
  edge_step-IsAdmitted issuer secret events now r out body law h =
      let e = run_of (edge_of issuer secret) events in
      let (outside, handled) = dispatched_forward e now r out body h in
      let f =
        handle-IsForwarded codec proxy issuer e.routes now r out law
          (rw (run-issuer (edge_of issuer secret) events) at handled) in
      record {
        outside = outside;
        forwarded = f;
        registered = booted_origin issuer secret events f.sandbox_id f.target f.routed;
      }

  -- If the library's reverse proxy behaves as documented: in an edge that `main` serves for an
  -- environment, whatever requests, passes of the monitor and probes have come before, in any
  -- order, a request that is forwarded bears a genuine credential for its sandbox and scope under
  -- the token secret of the environment, which has at least 32 bytes, as `IsForwarded` says, and
  -- goes to the scheme and the host of a target, and to a path under it, that one of those requests
  -- has registered for that sandbox, at the path of registrations, with the admin secret of the
  -- environment.
  pub edge_step-served :
      (getenv : Text → Text) (addr : Text) (e : Edge) (events : List Event) (now : Time)
      (r out : Request) (body : Option Text)
      → IsReverseProxy proxy
      → boot getenv ≡ serving addr e
      → (edge_step codec proxy unmarshal parse_url
          (edge_run codec proxy unmarshal parse_url e events)
          (request now r body)).1
        ≡ some (proxied (forward out))
      → let token_secret = getenv (codes "KUBEBOX_TOKEN_SECRET") in
        (32 ≤ length token_secret)
        × IsAdmitted
            (record { secret = token_secret })
            (getenv (codes "KUBEBOX_ADMIN_SECRET"))
            events
            now
            r
            out
  edge_step-served getenv addr e events now r out body law b h =
      let (long, set, same) = boot_serving getenv addr e b in
      (long, edge_step-IsAdmitted _ _ events now r out body law (rw same at h))
