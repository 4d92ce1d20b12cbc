-- ===== src/Dataplane/Admin/Access.antt =====
-- Who may see and change the routes through the admin interface.
use kubebox.Common.{
  [], Text, codes, text_eq, text_eq_iff, starts_with, Option, ◌≡◌, ◌≢◌, refl, ◌⊎◌, inl, inr, false,
  Bool-cases, arith,
}
use kubebox.Dataplane.Routes.{Url}
use kubebox.Dataplane.Admin.{
  Admin, AdminRequest, AdminResponse, Answer, route_list, RouteRequest, is_authorized,
  handle_register, handle_routes, handle_route_instance, serve_http,
}

-- An answer that shows no routes.
abbrev pub IsSilent : Answer → Type 0
IsSilent (route_list m) = ⊥
IsSilent _ = Unit {0}

module _ (unmarshal : Text → Option RouteRequest) (parse_url : Text → Option Url) where
  denied :
      (a : Admin) (r : AdminRequest)
      → (a.admin_secret ≡ []) ⊎ (r.token ≢ a.admin_secret)
      → is_authorized a r ≡ false
  unfolding is_authorized
  denied a r (inl none_set) = rw none_set refl
  denied a r (inr differs) = ground (arith, text_eq_iff r.token a.admin_secret)

  Kept : Admin → Admin × AdminResponse → Type 0
  Kept a out = (out.0 ≡ a) × IsSilent out.1.answer

  routes-Kept :
      (a : Admin) (r : AdminRequest)
      → is_authorized a r ≡ false
      → Kept a (handle_routes unmarshal parse_url a r)
  unfolding Kept handle_routes handle_register
  routes-Kept a r d = elim (Bool-cases (text_eq r.method (codes "POST"))) [
    | inl post ↦ rw (post, d) (refl, tt)
    | inr other ↦ elim (Bool-cases (text_eq r.method (codes "GET"))) [
      | inl read ↦ rw (other, read, d) (refl, tt)
      | inr neither ↦ rw (other, neither) (refl, tt)
    ]
  ]

  instance-Kept :
      (a : Admin) (r : AdminRequest)
      → is_authorized a r ≡ false
      → Kept a (handle_route_instance a r)
  unfolding Kept handle_route_instance
  instance-Kept a r d = elim (Bool-cases (text_eq r.method (codes "DELETE"))) [
    | inl removes ↦ rw (removes, d) (refl, tt)
    | inr other ↦ rw other (refl, tt)
  ]

  -- A request whose token is not the admin secret, and any request where the secret is empty, leaves
  -- the interface and its routes as they are, and is answered without the list of routes.
  pub serve_http-denied :
      (a : Admin) (r : AdminRequest)
      → (a.admin_secret ≡ []) ⊎ (r.token ≢ a.admin_secret)
      → ((serve_http unmarshal parse_url a r).0 ≡ a)
        × IsSilent (serve_http unmarshal parse_url a r).1.answer
  unfolding Kept serve_http
  serve_http-denied a r h =
      let d = denied a r h in
      elim (Bool-cases (text_eq r.path (codes "/healthz"))) [
        | inl p ↦ rw p (refl, tt)
        | inr p ↦ elim (Bool-cases (text_eq r.path (codes "/internal/v1/routes"))) [
          | inl q ↦ rw (p, q) (routes-Kept a r d)
          | inr q ↦ elim (Bool-cases (starts_with r.path (codes "/internal/v1/routes/"))) [
            | inl i ↦ rw (p, q, i) (instance-Kept a r d)
            | inr i ↦ rw (p, q, i) (refl, tt)
          ]
        ]
      ]
