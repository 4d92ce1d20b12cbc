-- ===== src/Dataplane/Admin/Removal.antt =====
-- Which request of the admin interface takes a route away.
use kubebox.Common.{
  Text, codes, text_eq, text_eq_iff, is_empty, take, starts_with, trim_prefix, has_byte, lookup,
  lookup-insert, lookup-delete, Option, none, some, ◌≡◌, refl, true, false, not, ◌||◌, Bool-cases,
  Option-cases, inl, inr, arith,
}
use kubebox.Dataplane.Routes.{Url, clean_target, set, get, unregister, is_http}
use kubebox.Dataplane.Admin.{
  Admin, AdminRequest, RouteRequest, is_authorized, handle_register, handle_body, handle_parsed,
  handle_target, handle_set, handle_routes, handle_route_instance, handle_unregistered, serve_http,
}

-- A request that removes the route of an id.
pub record IsRemoval (a : Admin) (r : AdminRequest) (id : Text) : Type 0 where
  pub method : r.method ≡ codes "DELETE"
  pub authorized : is_authorized a r ≡ true
  pub prefix : starts_with r.path (codes "/internal/v1/routes/") ≡ true
  pub named : trim_prefix r.path (codes "/internal/v1/routes/") ≡ id
  pub filled : is_empty id ≡ false

unregistered-named :
    (a : Admin) (j id : Text) (u : Url)
    → get a.routes id ≡ some u
    → get (handle_unregistered a (unregister a.routes j)).0.routes id ≡ none
    → j ≡ id
unfolding handle_unregistered unregister get
unregistered-named a j id u there gone = elim (Option-cases (lookup j a.routes)) [
  | inl missing ↦ absurd (ground (arith, missing, there, gone))
  | inr (t, found) ↦
      ground (arith, lookup-delete j id a.routes, found, there, gone, text_eq_iff j id)
]

instance-IsRemoval :
    (a : Admin) (r : AdminRequest) (id : Text) (u : Url)
    → starts_with r.path (codes "/internal/v1/routes/") ≡ true
    → get a.routes id ≡ some u
    → get (handle_route_instance a r).0.routes id ≡ none
    → IsRemoval a r id
unfolding handle_route_instance
instance-IsRemoval a r id u p there gone =
    let name = trim_prefix r.path (codes "/internal/v1/routes/") in
    elim (Bool-cases (text_eq r.method (codes "DELETE"))) [
      | inl removes ↦ elim (Bool-cases (is_authorized a r)) [
        | inl good ↦ elim (Bool-cases (is_empty name || has_byte b'/' name)) [
          | inl bad ↦ absurd (ground (arith, removes, good, bad, there, gone))
          | inr fine ↦
              let same = unregistered-named a name id u there (rw (removes, good, fine) at gone) in
              record {
                method = (text_eq_iff r.method (codes "DELETE")).0 removes;
                authorized = good;
                prefix = p;
                named = same;
                filled = rw (← same) (ground (arith, fine));
              }
        ]
        | inr bad ↦ absurd (ground (arith, removes, bad, there, gone))
      ]
      | inr other ↦ absurd (ground (arith, other, there, gone))
    ]

set-stays :
    (a : Admin) (j id : Text) (o : Option Url) (u : Url)
    → get a.routes id ≡ some u
    → (v : Url) × (get (handle_target a j o).0.routes id ≡ some v)
unfolding handle_target handle_set set get
set-stays a j id none u there = (u, there)
set-stays a j id (some t) u there =
    elim (Bool-cases (is_empty j || not (is_http t) || is_empty t.host)) [
      | inl bad ↦ (u, rw bad there)
      | inr good ↦ elim (Bool-cases (text_eq j id)) [
        | inl same ↦
            (clean_target t, rw (good, lookup-insert j id (clean_target t) a.routes, same) refl)
        | inr other ↦ (u, rw (good, lookup-insert j id (clean_target t) a.routes, other) there)
      ]
    ]

module _ (unmarshal : Text → Option RouteRequest) (parse_url : Text → Option Url) where
  parsed-stays :
      (a : Admin) (o : Option RouteRequest) (id : Text) (u : Url)
      → get a.routes id ≡ some u
      → (v : Url) × (get (handle_parsed unmarshal parse_url a o).0.routes id ≡ some v)
  unfolding handle_parsed
  parsed-stays a none id u there = (u, there)
  parsed-stays a (some q) id u there =
      elim (Bool-cases (is_empty q.sandbox_id || is_empty q.target)) [
        | inl bad ↦ (u, rw bad there)
        | inr good ↦ rw good (set-stays a q.sandbox_id id (parse_url q.target) u there)
      ]

  body-stays :
      (a : Admin) (o : Option Text) (id : Text) (u : Url)
      → get a.routes id ≡ some u
      → (v : Url) × (get (handle_body unmarshal parse_url a o).0.routes id ≡ some v)
  unfolding handle_body
  body-stays a none id u there = (u, there)
  body-stays a (some b) id u there = parsed-stays a (unmarshal (take 65536 b)) id u there

  routes-stays :
      (a : Admin) (r : AdminRequest) (id : Text) (u : Url)
      → get a.routes id ≡ some u
      → (v : Url) × (get (handle_routes unmarshal parse_url a r).0.routes id ≡ some v)
  unfolding handle_routes handle_register
  routes-stays a r id u there = elim (Bool-cases (text_eq r.method (codes "POST"))) [
    | inl post ↦ elim (Bool-cases (is_authorized a r)) [
      | inl good ↦ rw (post, good) (body-stays a r.body id u there)
      | inr bad ↦ (u, rw (post, bad) there)
    ]
    | inr other ↦ (u, ground (arith, other, there))
  ]

  -- A request of the admin interface takes a route away only where it removes that very route, with
  -- the admin secret.
  pub serve_http-IsRemoval :
      (a : Admin) (r : AdminRequest) (id : Text) (u : Url)
      → get a.routes id ≡ some u
      → get (serve_http unmarshal parse_url a r).0.routes id ≡ none
      → IsRemoval a r id
  unfolding serve_http
  serve_http-IsRemoval a r id u there gone = elim (Bool-cases (text_eq r.path (codes "/healthz"))) [
    | inl p ↦ absurd (ground (arith, p, there, gone))
    | inr p ↦ elim (Bool-cases (text_eq r.path (codes "/internal/v1/routes"))) [
      | inl q ↦
          let (v, stays) = routes-stays a r id u there in absurd (ground (arith, p, q, stays, gone))
      | inr q ↦ elim (Bool-cases (starts_with r.path (codes "/internal/v1/routes/"))) [
        | inl i ↦ instance-IsRemoval a r id u i there (rw (p, q, i) at gone)
        | inr i ↦ absurd (ground (arith, p, q, i, there, gone))
      ]
    ]
  ]
