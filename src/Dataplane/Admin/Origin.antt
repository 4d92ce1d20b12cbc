-- ===== src/Dataplane/Admin/Origin.antt =====
-- Which request of the admin interface a route comes from.
use kubebox.Common.{
  [], Text, codes, text_eq, text_eq_iff, is_empty, take, starts_with, lookup, lookup-insert,
  lookup-delete, Option, none, some, ◌≡◌, refl, true, false, not, ◌||◌, Bool-cases, Option-cases,
  ◌⊎◌, inl, inr, arith, trim_prefix,
}
use kubebox.Dataplane.Routes.{Url, RouteRegistry, clean_target, set, get, unregister, is_http}
use kubebox.Dataplane.Admin.{
  Admin, AdminRequest, RouteRequest, is_authorized, handle_register, handle_body, handle_parsed,
  handle_target, handle_set, handle_routes, handle_route_instance, handle_unregistered, serve_http,
}

-- A target that `Set` takes, and the route that it stores.
pub record IsStored (id : Text) (target u : Url) : Type 0 where
  pub named : is_empty id ≡ false
  pub scheme : is_http target ≡ true
  pub host : is_empty target.host ≡ false
  pub stored : u ≡ clean_target target

pub unregister-kept :
    (r : RouteRegistry) (j id : Text) (u : Url)
    → get (unregister r j).0 id ≡ some u
    → get r id ≡ some u
unfolding unregister get
unregister-kept r j id u h = elim (Option-cases (lookup j r)) [
  | inl missing ↦ rw missing at h
  | inr (t, there) ↦ ground (arith, lookup-delete j id r, there, h)
]

set-origin :
    (a : Admin) (j id : Text) (t u : Url)
    → get (handle_set a (set a.routes j (some t))).0.routes id ≡ some u
    → (get a.routes id ≡ some u) ⊎ ((j ≡ id) × IsStored j t u)
unfolding handle_set set get
set-origin a j id t u h = elim (Bool-cases (is_empty j || not (is_http t) || is_empty t.host)) [
  | inl bad ↦ inl (rw bad at h)
  | inr good ↦ elim (Bool-cases (text_eq j id)) [
    | inl same ↦ inr (
      (text_eq_iff j id).0 same,
      record {
        named = ground arith;
        scheme = ground arith;
        host = ground arith;
        stored = ground (arith, lookup-insert j id (clean_target t) a.routes, good, same, h);
      },
    )
    | inr other ↦ inl (ground (arith, lookup-insert j id (clean_target t) a.routes, good, other, h))
  ]
]

unregistered-kept :
    (a : Admin) (j id : Text) (u : Url)
    → get (handle_unregistered a (unregister a.routes j)).0.routes id ≡ some u
    → get a.routes id ≡ some u
unfolding handle_unregistered unregister get
unregistered-kept a j id u h = elim (Option-cases (lookup j a.routes)) [
  | inl missing ↦ rw missing at h
  | inr (t, there) ↦ ground (arith, lookup-delete j id a.routes, there, h)
]

instance-kept :
    (a : Admin) (r : AdminRequest) (id : Text) (u : Url)
    → get (handle_route_instance a r).0.routes id ≡ some u
    → get a.routes id ≡ some u
unfolding handle_route_instance
instance-kept a r id u h =
    let name = trim_prefix r.path (codes "/internal/v1/routes/") in
    ground (arith, unregistered-kept a name id u, h)

module _ (unmarshal : Text → Option RouteRequest) (parse_url : Text → Option Url) where
  -- A request that registers a route.
  pub record IsRegistration (secret : Text) (r : AdminRequest) (id : Text) (u : Url) : Type 0 where
    pub method : r.method ≡ codes "POST"
    pub path : r.path ≡ codes "/internal/v1/routes"
    pub authorized : is_authorized (record { routes = []; admin_secret = secret }) r ≡ true
    pub body : Text
    pub sent : r.body ≡ some body
    pub named : Text
    pub decoded : unmarshal (take 65536 body) ≡ some (record { sandbox_id = id; target = named })
    pub target : Url
    pub parsed : parse_url named ≡ some target
    pub route : IsStored id target u

  -- What a body registers.
  Registers : Option Text → Text → Url → Type 0
  Registers o id u =
      (body : Text) × (o ≡ some body)
      × (named : Text) × (unmarshal (take 65536 body)
          ≡ some (record { sandbox_id = id; target = named }))
      × (target : Url) × (parse_url named ≡ some target)
      × IsStored id target u

  target-origin :
      (a : Admin) (j id : Text) (o : Option Url) (u : Url)
      → get (handle_target a j o).0.routes id ≡ some u
      → (get a.routes id ≡ some u) ⊎ ((j ≡ id) × (t : Url) × (o ≡ some t) × IsStored j t u)
  unfolding handle_target
  target-origin a j id none u h = inl h
  target-origin a j id (some t) u h = elim (set-origin a j id t u h) [
    | inl old ↦ inl old
    | inr (same, new) ↦ inr (same, t, refl, new)
  ]

  parsed-origin :
      (a : Admin) (b : Text) (o : Option RouteRequest) (id : Text) (u : Url)
      → unmarshal (take 65536 b) ≡ o
      → get (handle_parsed unmarshal parse_url a o).0.routes id ≡ some u
      → (get a.routes id ≡ some u) ⊎ Registers (some b) id u
  unfolding handle_parsed Registers
  parsed-origin a b none id u e h = inl h
  parsed-origin a b (some q) id u e h =
      elim (Bool-cases (is_empty q.sandbox_id || is_empty q.target)) [
        | inl bad ↦ inl (rw bad at h)
        | inr good ↦ elim (target-origin a q.sandbox_id id (parse_url q.target) u (rw good at h)) [
          | inl old ↦ inl old
          | inr (same, t, p, new) ↦ inr (b, refl, q.target, rw (← same) e, t, p, rw (← same) new)
        ]
      ]

  body-origin :
      (a : Admin) (o : Option Text) (id : Text) (u : Url)
      → get (handle_body unmarshal parse_url a o).0.routes id ≡ some u
      → (get a.routes id ≡ some u) ⊎ Registers o id u
  unfolding handle_body
  body-origin a none id u h = inl h
  body-origin a (some b) id u h = parsed-origin a b _ id u refl h

  routes-origin :
      (a : Admin) (r : AdminRequest) (id : Text) (u : Url)
      → r.path ≡ codes "/internal/v1/routes"
      → get (handle_routes unmarshal parse_url a r).0.routes id ≡ some u
      → (get a.routes id ≡ some u) ⊎ IsRegistration a.admin_secret r id u
  unfolding handle_routes handle_register Registers is_authorized
  routes-origin a r id u p h = elim (Bool-cases (text_eq r.method (codes "POST"))) [
    | inl post ↦ elim (Bool-cases (is_authorized a r)) [
      | inl good ↦ elim (body-origin a r.body id u (rw (post, good) at h)) [
        | inl old ↦ inl old
        | inr (b, e, named, d, t, parsed, route) ↦ inr (record {
          method = (text_eq_iff r.method (codes "POST")).0 post;
          path = p;
          authorized = good;
          body = b;
          sent = e;
          named = named;
          decoded = d;
          target = t;
          parsed = parsed;
          route = route;
        })
      ]
      | inr bad ↦ inl (rw (post, bad) at h)
    ]
    | inr other ↦ inl (ground (arith, other, h))
  ]

  -- After a request of the admin interface every route is an old one, or the one that the request
  -- has registered, with the admin secret.
  pub serve_http-origin :
      (a : Admin) (r : AdminRequest) (id : Text) (u : Url)
      → get (serve_http unmarshal parse_url a r).0.routes id ≡ some u
      → (get a.routes id ≡ some u) ⊎ IsRegistration a.admin_secret r id u
  unfolding serve_http
  serve_http-origin a r id u h = elim (Bool-cases (text_eq r.path (codes "/healthz"))) [
    | inl p ↦ inl (rw p at h)
    | inr p ↦ elim (Bool-cases (text_eq r.path (codes "/internal/v1/routes"))) [
      | inl q ↦
          routes-origin a r id u ((text_eq_iff r.path (codes "/internal/v1/routes")).0 q)
            (rw (p, q) at h)
      | inr q ↦ elim (Bool-cases (starts_with r.path (codes "/internal/v1/routes/"))) [
        | inl i ↦ inl (instance-kept a r id u (rw (p, q, i) at h))
        | inr i ↦ inl (rw (p, q, i) at h)
      ]
    ]
  ]
