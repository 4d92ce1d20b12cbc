-- ===== src/Dataplane/Admin/Registration.antt =====
-- What a registration that succeeds does to the routes.
use kubebox.Common.{
  Text, is_empty, take, insert, lookup-insert_self, Option, none, some, ◌≡◌, refl, true, false, not,
  ◌||◌, Bool-cases, inl, inr, arith,
}
use kubebox.Dataplane.Routes.{Url, clean_target, set, get, is_http}
use kubebox.Dataplane.Admin.{
  Admin, AdminRequest, RouteRequest, is_authorized, handle_register, handle_body, handle_parsed,
  handle_target, handle_set,
}

module _ (unmarshal : Text → Option RouteRequest) (parse_url : Text → Option Url) where
  -- The route that the body of a registration asks for: from the sandbox that it names to the URL
  -- that it gives, which is an HTTP host, without the credentials and the fragment of that URL.
  pub record IsRegistered (r : AdminRequest) (a b : Admin) : Type 0 where
    pub body : Text
    pub sent : r.body ≡ some body
    pub req : RouteRequest
    pub decoded : unmarshal (take 65536 body) ≡ some req
    pub target : Url
    pub parsed : parse_url req.target ≡ some target
    pub named : is_empty req.sandbox_id ≡ false
    pub host : is_empty target.host ≡ false
    pub scheme : is_http target ≡ true
    pub stored : b.routes ≡ insert req.sandbox_id (clean_target target) a.routes
    pub found : get b.routes req.sandbox_id ≡ some (clean_target target)
    pub secret : b.admin_secret ≡ a.admin_secret

  set-IsRegistered :
      (a : Admin) (r : AdminRequest) (body : Text) (req : RouteRequest) (u : Url)
      → r.body ≡ some body
      → unmarshal (take 65536 body) ≡ some req
      → parse_url req.target ≡ some u
      → (handle_set a (set a.routes req.sandbox_id (some u))).1.status ≡ 201
      → IsRegistered r a (handle_set a (set a.routes req.sandbox_id (some u))).0
  unfolding handle_set set get
  set-IsRegistered a r body req u sent decoded parsed h =
      elim (Bool-cases (is_empty req.sandbox_id || not (is_http u) || is_empty u.host)) [
        | inl bad ↦ absurd (ground arith)
        | inr good ↦ rw good (record {
          body = body;
          sent = sent;
          req = req;
          decoded = decoded;
          target = u;
          parsed = parsed;
          named = ground arith;
          host = ground arith;
          scheme = ground arith;
          stored = refl;
          found = lookup-insert_self req.sandbox_id (clean_target u) a.routes;
          secret = refl;
        })
      ]

  target-IsRegistered :
      (a : Admin) (r : AdminRequest) (body : Text) (req : RouteRequest) (o : Option Url)
      → r.body ≡ some body
      → unmarshal (take 65536 body) ≡ some req
      → parse_url req.target ≡ o
      → (handle_target a req.sandbox_id o).1.status ≡ 201
      → IsRegistered r a (handle_target a req.sandbox_id o).0
  unfolding handle_target
  target-IsRegistered a r body req none sent decoded parsed h = absurd (omega (arith, h))
  target-IsRegistered a r body req (some u) sent decoded parsed h =
      set-IsRegistered a r body req u sent decoded parsed h

  parsed-IsRegistered :
      (a : Admin) (r : AdminRequest) (body : Text) (o : Option RouteRequest)
      → r.body ≡ some body
      → unmarshal (take 65536 body) ≡ o
      → (handle_parsed unmarshal parse_url a o).1.status ≡ 201
      → IsRegistered r a (handle_parsed unmarshal parse_url a o).0
  unfolding handle_parsed
  parsed-IsRegistered a r body none sent decoded h = absurd (omega (arith, h))
  parsed-IsRegistered a r body (some req) sent decoded h =
      elim (Bool-cases (is_empty req.sandbox_id || is_empty req.target)) [
        | inl bad ↦ absurd (ground arith)
        | inr good ↦ rw good (
            target-IsRegistered a r body req (parse_url req.target) sent decoded refl
              (rw good at h))
      ]

  body-IsRegistered :
      (a : Admin) (r : AdminRequest) (o : Option Text)
      → r.body ≡ o
      → (handle_body unmarshal parse_url a o).1.status ≡ 201
      → IsRegistered r a (handle_body unmarshal parse_url a o).0
  unfolding handle_body
  body-IsRegistered a r none sent h = absurd (omega (arith, h))
  body-IsRegistered a r (some body) sent h =
      parsed-IsRegistered a r body (unmarshal (take 65536 body)) sent refl h

  -- A registration that is answered with the status 201 bore the admin secret, and its body, cut
  -- after 64 KiB, named a sandbox and an http or https URL with a host. The routes then lead that
  -- sandbox to that URL without its credentials and fragment and are otherwise unchanged, as is the
  -- secret.
  pub handle_register-IsRegistered :
      (a : Admin) (r : AdminRequest)
      → (handle_register unmarshal parse_url a r).1.status ≡ 201
      → (is_authorized a r ≡ true) × IsRegistered r a (handle_register unmarshal parse_url a r).0
  unfolding handle_register
  handle_register-IsRegistered a r h = elim (Bool-cases (is_authorized a r)) [
    | inl good ↦ rw good (refl, body-IsRegistered a r r.body refl (rw good at h))
    | inr bad ↦ absurd (ground arith)
  ]
