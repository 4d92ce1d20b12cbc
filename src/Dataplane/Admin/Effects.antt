-- ===== src/Dataplane/Admin/Effects.antt =====
-- What the answers of the route interface say about the routes.
use kubebox.Common.{
  ℕ, Text, codes, text_eq, is_empty, take, starts_with, trim_prefix, lookup, lookup-insert_self,
  lookup-delete, text_eq_refl, Option, none, some, ◌≡◌, refl, subst, sym, true, false, not, ◌||◌,
  Bool, ◌&&◌, leb, ltb, ◌==◌, Bool-cases, Option-cases, if◌then◌else◌, inl, inr, arith,
  trim_prefix-append, ◌++◌,
}
use kubebox.Dataplane.Routes.{Url, clean_target, set, get, unregister}
use kubebox.Dataplane.Admin.{
  Admin, AdminRequest, AdminResponse, refuse, method_refused, unauthorized, RouteRequest,
  is_authorized, handle_register, handle_body, handle_parsed, handle_target, handle_set,
  handle_routes, handle_route_instance, handle_unregistered, serve_http,
}

-- Route registrations that are answered with a success.
abbrev pub is_success : ℕ → Bool
is_success code = leb 200 code && ltb code 300

module _ (unmarshal : Text → Option RouteRequest) (parse_url : Text → Option Url) where
  -- The route of a request is stored.
  abbrev pub Stored : RouteRequest → Admin → Type 0
  Stored req a =
      (u : Url) × (parse_url req.target ≡ some u)
      × (get a.routes req.sandbox_id ≡ some (clean_target u))

  set_stored :
      (a : Admin) (id : Text) (u : Url)
      → is_success (handle_set a (set a.routes id (some u))).1.status ≡ true
      → get (handle_set a (set a.routes id (some u))).0.routes id ≡ some (clean_target u)
  unfolding handle_set set get
  set_stored a id u h = ground (arith, h, lookup-insert_self id (clean_target u) a.routes)

  target-Stored :
      (a : Admin) (req : RouteRequest) (o : Option Url)
      → parse_url req.target ≡ o
      → is_success (handle_target a req.sandbox_id o).1.status ≡ true
      → Stored req (handle_target a req.sandbox_id o).0
  unfolding handle_target
  target-Stored a req none p h = absurd (ground (arith, h))
  target-Stored a req (some u) p h = (u, p, set_stored a req.sandbox_id u h)

  parsed-Stored :
      (a : Admin) (req : RouteRequest)
      → is_success (handle_parsed unmarshal parse_url a (some req)).1.status ≡ true
      → Stored req (handle_parsed unmarshal parse_url a (some req)).0
  unfolding handle_parsed
  parsed-Stored a req h = elim (Bool-cases (is_empty req.sandbox_id || is_empty req.target)) [
    | inl bad ↦ absurd (ground arith)
    | inr good ↦ rw good (target-Stored a req _ refl (rw good at h))
  ]

  handle_register-Stored :
      (a : Admin) (r : AdminRequest) (body : Text) (req : RouteRequest)
      → r.body ≡ some body
      → unmarshal (take 65536 body) ≡ some req
      → is_success (handle_register unmarshal parse_url a r).1.status ≡ true
      → Stored req (handle_register unmarshal parse_url a r).0
  unfolding handle_register handle_body
  handle_register-Stored a r body req b decoded h = elim (Bool-cases (is_authorized a r)) [
    | inl good ↦ rw (good, b, decoded) (parsed-Stored a req (rw (good, b, decoded) at h))
    | inr bad ↦ absurd (ground arith)
  ]

  serve_register :
      (a : Admin) (r : AdminRequest)
      → r.method ≡ codes "POST"
      → r.path ≡ codes "/internal/v1/routes"
      → serve_http unmarshal parse_url a r ≡ handle_register unmarshal parse_url a r
  unfolding serve_http handle_routes text_eq
  serve_register a r m p = rw (p, m) refl

  -- A registration of a request that is answered with a success has stored its route.
  pub serve_http-Stored :
      (a : Admin) (r : AdminRequest) (body : Text) (req : RouteRequest)
      → r.method ≡ codes "POST"
      → r.path ≡ codes "/internal/v1/routes"
      → r.body ≡ some body
      → unmarshal (take 65536 body) ≡ some req
      → is_success (serve_http unmarshal parse_url a r).1.status ≡ true
      → Stored req (serve_http unmarshal parse_url a r).0
  serve_http-Stored a r body req m p b decoded h =
      rw (serve_register a r m p)
        (handle_register-Stored a r body req b decoded (rw (serve_register a r m p) at h))

  abbrev pub Removing : Admin × AdminResponse → Text → Type 0
  Removing out id =
      is_success out.1.status || out.1.status == 404 ≡ true → get out.0.routes id ≡ none

  serve_instance :
      (a : Admin) (r : AdminRequest) (id : Text)
      → r.path ≡ codes "/internal/v1/routes/" ++ id
      → serve_http unmarshal parse_url a r ≡ handle_route_instance a r
  unfolding serve_http starts_with text_eq
  serve_instance a r id p = rw p refl

  unregistered_removed :
      (a : Admin) (id : Text) → Removing (handle_unregistered a (unregister a.routes id)) id
  unfolding handle_unregistered unregister get
  unregistered_removed a id h = elim (Option-cases (lookup id a.routes)) [
    | inl missing ↦ rw missing missing
    | inr (u, there) ↦ rw there (rw (lookup-delete id id a.routes, text_eq_refl id) refl)
  ]

  instance_removed :
      (a : Admin) (r : AdminRequest) (id : Text)
      → r.path ≡ codes "/internal/v1/routes/" ++ id
      → Removing (handle_route_instance a r) id
  unfolding handle_route_instance
  instance_removed a r id p =
      guarded (trim_prefix r.path (codes "/internal/v1/routes/"))
        (rw p (trim_prefix-append (codes "/internal/v1/routes/") id))
        (not (text_eq r.method (codes "DELETE"))) (not (is_authorized a r)) _
    where
      guarded :
          (name : Text)
          → name ≡ id
          → (b c d : Bool)
          → Removing
              (if b
                then (a, method_refused)
                else if c
                then (a, unauthorized)
                else if d
                then (a, refuse 400 (codes "sandboxId is required"))
                else handle_unregistered a (unregister a.routes name))
              id
      guarded name e true c d h = absurd (ground (arith, h))
      guarded name e false true d h = absurd (ground (arith, h))
      guarded name e false false true h = absurd (ground (arith, h))
      guarded name e false false false h =
          subst (λ x. Removing (handle_unregistered a (unregister a.routes x)) id) (sym e)
            (unregistered_removed a id) h

  -- A removal that is answered with a success or with 404 leaves no route.
  pub serve_http-removed :
      (a : Admin) (r : AdminRequest) (id : Text)
      → r.path ≡ codes "/internal/v1/routes/" ++ id
      → Removing (serve_http unmarshal parse_url a r) id
  serve_http-removed a r id p = rw (serve_instance a r id p) (instance_removed a r id p)
