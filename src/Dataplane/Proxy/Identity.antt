-- ===== src/Dataplane/Proxy/Identity.antt =====
-- The identity that a forwarded request carries is the credential's, whatever the client put there.
use kubebox.Common.{
  [], ◌∷◌, Text, text_eq, text_eq_refl, lookup, insert, delete, lookup-insert, lookup-insert_self,
  lookup-delete, join, contains_text, List, Option, none, some, Bool, true, false, if◌then◌else◌,
  ◌≡◌, refl, ◌∙◌,
}
use kubebox.Governance.{Time}
use kubebox.Dataplane.Token.{Codec, TokenIssuer, CredentialEnvelope, Result, ok, err, validate}
use kubebox.Dataplane.Token.Laws.{IsGenuine, validate-IsGenuine}
use kubebox.Dataplane.Routes.{Url, RouteRegistry, get}
use kubebox.Dataplane.Proxy.{
  Request, ReverseProxy, forward, authorization, sandbox_id_header, scope_header, header_set,
  parse_path, scope_for, join_path, bearer, direct, after_validate, with_target, with_path, handle,
}
use kubebox.Dataplane.Proxy.Outgoing.{connection, user_agent, managed, is_dropped, IsReverseProxy}

module _ (codec : Codec) (proxy : ReverseProxy) where
  -- What stands behind a forwarded request.
  pub record IsForwarded (i : TokenIssuer) (routes : RouteRegistry) (now : Time) (r out : Request)
      : Type 0 where
    pub sandbox_id : Text
    pub backend_path : Text
    pub target : Url
    pub envelope : CredentialEnvelope
    pub parsed : parse_path r.url.path ≡ some (sandbox_id, backend_path)
    pub routed : get routes sandbox_id ≡ some target
    pub genuine :
        IsGenuine codec i now (bearer r) sandbox_id (scope_for r.method backend_path) envelope
    pub identity : lookup sandbox_id_header out.headers ≡ (
        if is_dropped proxy.canonical r.headers sandbox_id_header
        then none
        else some (sandbox_id ∷ []))
    pub granted : lookup scope_header out.headers ≡ (
        if is_dropped proxy.canonical r.headers scope_header
        then none
        else some (join (b',' ∷ []) envelope.scopes ∷ []))
    pub stripped : lookup authorization out.headers ≡ none
    pub scheme : out.url.scheme ≡ target.scheme
    pub host : out.url.host ≡ target.host
    pub path : out.url.path ≡ join_path target.path backend_path

  names_differ :
      (text_eq scope_header sandbox_id_header ≡ false)
      × (text_eq scope_header authorization ≡ false)
      × (text_eq sandbox_id_header authorization ≡ false)
  unfolding text_eq
  names_differ = (refl, refl, refl)

  connection_differs :
      (text_eq scope_header connection ≡ false)
      × (text_eq sandbox_id_header connection ≡ false)
      × (text_eq authorization connection ≡ false)
      × (text_eq connection user_agent ≡ false)
  unfolding text_eq
  connection_differs = (refl, refl, refl, refl)

  not_managed :
      (contains_text managed sandbox_id_header ≡ false)
      × (contains_text managed scope_header ≡ false)
      × (contains_text managed authorization ≡ false)
  unfolding contains_text text_eq
  not_managed = (refl, refl, refl)

  direct_headers :
      (target : Url) (id path : Text) (e : CredentialEnvelope) (r : Request)
      → let out = direct proxy.director target id path e r in
        (lookup sandbox_id_header out.headers ≡ some (id ∷ []))
        × (lookup scope_header out.headers ≡ some (join (b',' ∷ []) e.scopes ∷ []))
        × (lookup authorization out.headers ≡ none)
  unfolding direct header_set
  direct_headers target id path e r =
      let h = (proxy.director target r).headers in
      let scopes = join (b',' ∷ []) e.scopes ∷ [] in
      let named = insert sandbox_id_header (id ∷ []) (delete authorization h) in
      (
        rw (lookup-insert scope_header sandbox_id_header scopes named, names_differ.0)
            (lookup-insert_self sandbox_id_header (id ∷ []) (delete authorization h)),
        lookup-insert_self scope_header scopes named,
        rw (
          lookup-insert scope_header authorization scopes named,
          names_differ.1,
          lookup-insert sandbox_id_header authorization (id ∷ []) (delete authorization h),
          names_differ.2,
          lookup-delete authorization authorization h,
          text_eq_refl authorization,
        ),
      )

  -- The director leaves the client's Connection header as it is.
  direct-connection :
      (target : Url) (id path : Text) (e : CredentialEnvelope) (r : Request)
      → IsReverseProxy proxy
      → lookup connection (direct proxy.director target id path e r).headers
        ≡ lookup connection r.headers
  unfolding direct header_set
  direct-connection target id path e r law =
      let h = (proxy.director target r).headers in
      let scopes = join (b',' ∷ []) e.scopes ∷ [] in
      let named = insert sandbox_id_header (id ∷ []) (delete authorization h) in
      rw
        (
          lookup-insert scope_header connection scopes named,
          connection_differs.0,
          lookup-insert sandbox_id_header connection (id ∷ []) (delete authorization h),
          connection_differs.1,
          lookup-delete authorization connection h,
          connection_differs.2,
        )
        (law.headers target r connection connection_differs.3)

  -- A header that the proxy does not manage, after its director and what follows.
  sent_header :
      (target : Url) (id path : Text) (e : CredentialEnvelope) (r : Request) (name : Text)
      (value : Option (List Text))
      → IsReverseProxy proxy
      → contains_text managed name ≡ false
      → lookup name (direct proxy.director target id path e r).headers ≡ value
      → lookup name (proxy.send (direct proxy.director target id path e r)).headers
        ≡ (if is_dropped proxy.canonical r.headers name then none else value)
  sent_header target id path e r name value law free v = rw (
    law.sent_headers (direct proxy.director target id path e r) name free,
    direct-connection target id path e r law,
    v,
  )

  direct_url :
      (target : Url) (id path : Text) (e : CredentialEnvelope) (r : Request)
      → IsReverseProxy proxy
      → let url = (direct proxy.director target id path e r).url in
        (url.scheme ≡ target.scheme)
        × (url.host ≡ target.host)
        × (url.path ≡ join_path target.path path)
  unfolding direct
  direct_url target id path e r law = (law.scheme target r, law.host target r, refl)

  no_value : (b : Bool) (o : Option (List Text)) → o ≡ none → (if b then none else o) ≡ none
  no_value true o h = refl
  no_value false o h = h

  validated_forward :
      (v : Result CredentialEnvelope) (target : Url) (id path : Text) (r out : Request)
      → after_validate codec proxy v target id path r ≡ forward out
      → (e : CredentialEnvelope) × (v ≡ ok e)
        × (proxy.send (direct proxy.director target id path e r) ≡ out)
  unfolding after_validate
  validated_forward (err e) target id path r out h = cc
  validated_forward (ok e) target id path r out h = (e, refl, cc)

  routed_forward :
      (i : TokenIssuer) (routes : RouteRegistry) (now : Time) (r out : Request) (id path : Text)
      (o : Option Url)
      → IsReverseProxy proxy
      → parse_path r.url.path ≡ some (id, path)
      → get routes id ≡ o
      → with_target codec proxy o i now id path r ≡ forward out
      → IsForwarded i routes now r out
  unfolding with_target
  routed_forward i routes now r out id path none law p g h = cc
  routed_forward i routes now r out id path (some target) law p g h =
      let (e, accepted, made) =
        validated_forward (validate codec i now (bearer r) id (scope_for r.method path)) target id
          path r out h in
      let d = direct proxy.director target id path e r in
      let headers = direct_headers target id path e r in
      let url = direct_url target id path e r law in
      record {
        sandbox_id = id;
        backend_path = path;
        target = target;
        envelope = e;
        parsed = p;
        routed = g;
        genuine = validate-IsGenuine codec i now (bearer r) id (scope_for r.method path) e accepted;
        identity =
            rw (← made)
              (sent_header target id path e r sandbox_id_header _ law not_managed.0 headers.0);
        granted =
            rw (← made) (sent_header target id path e r scope_header _ law not_managed.1 headers.1);
        stripped = rw (← made) (
            sent_header target id path e r authorization none law not_managed.2 headers.2
            ∙ no_value (is_dropped proxy.canonical r.headers authorization) none refl);
        scheme = rw (← made) (law.sent_scheme d ∙ url.0);
        host = rw (← made) (law.sent_host d ∙ url.1);
        path = rw (← made) (law.sent_path d ∙ url.2);
      }

  path_forward :
      (i : TokenIssuer) (routes : RouteRegistry) (now : Time) (r out : Request)
      (o : Option (Text × Text))
      → IsReverseProxy proxy
      → parse_path r.url.path ≡ o
      → with_path codec proxy o i routes now r ≡ forward out
      → IsForwarded i routes now r out
  unfolding with_path
  path_forward i routes now r out none law p h = cc
  path_forward i routes now r out (some (id, path)) law p h =
      routed_forward i routes now r out id path (get routes id) law p refl h

  -- If the library's reverse proxy behaves as documented, a request that the edge forwards has a
  -- sandbox path with a route, and bears a genuine credential for that sandbox and for the scope of
  -- the path. What goes out goes to the scheme and the host of that route's target, asks for the
  -- joined path, has no Authorization header, and carries under the two identity headers that sandbox
  -- and the credential's scopes, whatever the client put there; or nothing, under the one that the
  -- client's Connection header names.
  pub handle-IsForwarded :
      (i : TokenIssuer) (routes : RouteRegistry) (now : Time) (r out : Request)
      → IsReverseProxy proxy
      → handle codec proxy i routes now r ≡ forward out
      → IsForwarded i routes now r out
  unfolding handle
  handle-IsForwarded i routes now r out law h = path_forward i routes now r out _ law refl h
