-- ===== src/Dataplane/RouteClient/Delivery.antt =====
-- The client of internal/dataplane/route_client.go in front of the interface of admin.go.
use kubebox.Common.{
  ◌++◌, Text, codes, text_eq, take, ◌==◌, Option, none, some, Bool, true, false, ◌||◌, ◌≡◌, refl,
  arith,
}
use kubebox.Dataplane.Routes.{Url, get}
use kubebox.Dataplane.Admin.{Admin, RouteRequest, serve_http}
use kubebox.Dataplane.Admin.Effects.{is_success, Stored, serve_http-Stored, serve_http-removed}
use kubebox.Dataplane.RouteClient.{
  RouteClient, Outgoing, Incoming, Sent, received, not_sent, do_answer, unregister_answer,
  routes_path, instance_path, register_request, register_checked, register_body, register,
  unregister_request, unregister_checked, unregister,
}

-- A name that a path does not keep when it is cleaned on its way.
abbrev pub is_dots : Text → Bool
is_dots id = text_eq id (codes ".") || text_eq id (codes "..")

-- What the way to the route interface is relied on for: where an answer is received, it is the
-- interface's own to the request that was sent; the path that the interface sees is the one that the
-- client has put after its base; and a registration that is encoded is decoded to itself.
pub record IsWay {W : Type 0} (send : W → Outgoing → W × Sent) (path_of : Text → Text)
    (admin : W → Admin) (unmarshal : Text → Option RouteRequest) (parse_url : Text → Option Url)
    (marshal : Text → Text → Option Text) (path_escape : Text → Text) (base : Text) : Type 0 where
  pub delivers :
      (w : W) (o : Outgoing) (resp : Incoming)
      → (send w o).1 ≡ received resp
      → let out =
          serve_http unmarshal parse_url
            (admin w)
            (record { method = o.method; path = path_of o.url; token = o.token; body = o.body }) in
        (resp.status_code ≡ out.1.status) × (admin (send w o).0 ≡ out.0)
  pub routes_url : path_of (base ++ routes_path) ≡ routes_path
  pub instance_url :
      (id : Text)
      → is_dots id ≡ false
      → path_of (base ++ (instance_path ++ path_escape id)) ≡ instance_path ++ id
  pub decodes :
      (id target body : Text)
      → marshal id target ≡ some body
      → unmarshal (take 65536 body) ≡ some (record { sandbox_id = id; target = target })

module _ {W : Type 0} (send : W → Outgoing → W × Sent) (request_error : Text → Option Text)
    (marshal : Text → Text → Option Text) (path_escape : Text → Text) (path_of : Text → Text)
    (admin : W → Admin) (unmarshal : Text → Option RouteRequest) (parse_url : Text → Option Url)
    (c : RouteClient)
    (way : IsWay send path_of admin unmarshal parse_url marshal path_escape c.base_url) where
  do_answer-ok :
      (o : W × Sent)
      → (do_answer o).1 ≡ none
      → (resp : Incoming) × (o.1 ≡ received resp) × (is_success resp.status_code ≡ true)
  unfolding do_answer
  do_answer-ok (w, not_sent e) h = cc
  do_answer-ok (w, received resp) h = (resp, refl, ground (arith, h))

  do_answer-fst : (o : W × Sent) → (do_answer o).0 ≡ o.0
  unfolding do_answer
  do_answer-fst (w, not_sent e) = refl
  do_answer-fst (w, received resp) = refl

  sent-Stored :
      (w : W) (id target body : Text)
      → marshal id target ≡ some body
      → let o =
          do_answer (send w (register_request send request_error marshal path_escape c body)) in
        o.1 ≡ none
        → Stored unmarshal parse_url (record { sandbox_id = id; target = target }) (admin o.0)
  unfolding register_request
  sent-Stored w id target body m h =
      let request = register_request send request_error marshal path_escape c body in
      let (resp, got, success) = do_answer-ok (send w request) h in
      let (status, after) = way.delivers w request resp got in
      rw (do_answer-fst (send w request), after)
        (serve_http-Stored unmarshal parse_url (admin w) _ body
          (record { sandbox_id = id; target = target }) refl way.routes_url refl
          (way.decodes id target body m) (rw status at success))

  checked-Stored :
      (w : W) (id target body : Text) (e : Option Text)
      → marshal id target ≡ some body
      → let o = register_checked send request_error marshal path_escape c w body e in
        o.1 ≡ none
        → Stored unmarshal parse_url (record { sandbox_id = id; target = target }) (admin o.0)
  unfolding register_checked
  checked-Stored w id target body (some e) m h = cc
  checked-Stored w id target body none m h = sent-Stored w id target body m h

  encoded-Stored :
      (w : W) (id target : Text) (b : Option Text)
      → marshal id target ≡ b
      → let o = register_body send request_error marshal path_escape c w b in
        o.1 ≡ none
        → Stored unmarshal parse_url (record { sandbox_id = id; target = target }) (admin o.0)
  unfolding register_body
  encoded-Stored w id target none m h = cc
  encoded-Stored w id target (some body) m h = checked-Stored w id target body _ m h

  -- A registration that returns no error has been accepted: the target parses, and the routes lead
  -- the sandbox to it, without its credentials and fragment.
  pub register-Stored :
      (w : W) (id target : Text)
      → let o = register send request_error marshal path_escape c w id target in
        o.1 ≡ none
        → Stored unmarshal parse_url (record { sandbox_id = id; target = target }) (admin o.0)
  unfolding register
  register-Stored w id target h = encoded-Stored w id target (marshal id target) refl h

  unregister_answer-ok :
      (o : W × Sent)
      → (unregister_answer o).1 ≡ none
      → (resp : Incoming) × (o.1 ≡ received resp)
        × (is_success resp.status_code || resp.status_code == 404 ≡ true)
  unfolding unregister_answer
  unregister_answer-ok (w, not_sent e) h = cc
  unregister_answer-ok (w, received resp) h = (resp, refl, ground (arith, h))

  unregister_answer-fst : (o : W × Sent) → (unregister_answer o).0 ≡ o.0
  unfolding unregister_answer
  unregister_answer-fst (w, not_sent e) = refl
  unregister_answer-fst (w, received resp) = refl

  sent_removed :
      (w : W) (id : Text)
      → is_dots id ≡ false
      → let o =
          unregister_answer
            (send w (unregister_request send request_error marshal path_escape c id)) in
        o.1 ≡ none → get (admin o.0).routes id ≡ none
  unfolding unregister_request
  sent_removed w id d h =
      let request = unregister_request send request_error marshal path_escape c id in
      let (resp, got, success) = unregister_answer-ok (send w request) h in
      let (status, after) = way.delivers w request resp got in
      rw (unregister_answer-fst (send w request), after)
        (serve_http-removed unmarshal parse_url (admin w) _ id (way.instance_url id d)
          (rw status at success))

  checked_removed :
      (w : W) (id : Text) (e : Option Text)
      → is_dots id ≡ false
      → let o = unregister_checked send request_error marshal path_escape c w id e in
        o.1 ≡ none → get (admin o.0).routes id ≡ none
  unfolding unregister_checked
  checked_removed w id (some e) d h = cc
  checked_removed w id none d h = sent_removed w id d h

  -- A removal that returns no error, of a name that is not `.` or `..`, leaves no route of the sandbox, whether there was one or not.
  pub unregister_removed :
      (w : W) (id : Text)
      → is_dots id ≡ false
      → let o = unregister send request_error marshal path_escape c w id in
        o.1 ≡ none → get (admin o.0).routes id ≡ none
  unfolding unregister
  unregister_removed w id d h = checked_removed w id _ d h
