-- ===== src/Commands/Examples.antt =====
-- Runs of the programs on small inputs.
use kubebox.Common.{
  ◌≤◌, [], ◌∷◌, List, Text, codes, text_eq, length, lookup, split, cut, trim_prefix, trim_space,
  starts_with, has_byte, insert, delete, contains_text, pos, inc64, wrap64, ◌+ℤ◌, Option, none,
  some, ◌≡◌, refl, ◌⊎◌, if◌then◌else◌,
}
use kubebox.Dataplane.Token.{Codec, CredentialEnvelope, TokenIssuer, validate, new_token_issuer}
use kubebox.Dataplane.Routes.{Url, new_route_registry, clean_target, set, get, list, unregister}
use kubebox.Dataplane.Proxy.Examples.{plain_proxy, plain_proxy-IsReverseProxy}
use kubebox.Dataplane.Proxy.{
  Request, forward, authorization, direct, handle, parse_path, bearer, header_get, scope_for,
}
use kubebox.Dataplane.Admin.{
  RouteRequest, new_admin, serve_http, handle_routes, handle_register, is_authorized,
  handle_route_instance,
}
use kubebox.Dataplane.Health.{
  HttpClient, new_health_monitor, probe, check_route, record_failure, reset_failures, failures_of,
}
use kubebox.Commands.EnvdProxy.{
  Edge, Event, request, ticked, probed, proxied, boot, serving, edge_of, edge_step, edge_run,
  dispatch, is_internal,
}
use kubebox.Commands.EnvdProxy.Origin.{IsAdmitted, edge_step-served}
use kubebox.Commands.EnvdProxy.Probes.{Removing, streak_after, run_streak, route_lost}

abbrev getenv : Text → Text
getenv name =
    if text_eq name (codes "KUBEBOX_TOKEN_SECRET")
    then codes "0123456789abcdef0123456789abcdef"
    else if text_eq name (codes "KUBEBOX_ADMIN_SECRET")
    then codes "admin"
    else []

abbrev envelope : CredentialEnvelope
envelope = record { sandbox_id = codes "s1"; scopes = codes "files" ∷ []; expires_at = pos 60 }

-- Every signature is empty, and so are the texts.
abbrev blank_codec : Codec
blank_codec = record {
  hmac = λ secret message. [];
  encode = λ s. [];
  decode = λ s. some [];
  marshal = λ p. [];
  unmarshal = λ s. some (record { envelope = envelope; issued_at = pos 0 });
  unix = λ t. t;
}

abbrev backend : Url
backend = record {
  scheme = codes "http";
  user = none;
  host = codes "h";
  path = [];
  raw_query = [];
  fragment = [];
}

abbrev decode_one : Text → Option RouteRequest
decode_one body = some (record { sandbox_id = codes "s1"; target = body })

abbrev parse_one : Text → Option Url
parse_one target = some backend

abbrev request_to : Text → Text → Text → Text → Request
request_to method path name value = record {
  method = method;
  url = record { scheme = []; user = none; host = []; path = path; raw_query = []; fragment = [] };
  headers = (name, value ∷ []) ∷ [];
}

abbrev registers : Event
registers =
    request (pos 0)
      (request_to (codes "POST") (codes "/internal/v1/routes") (codes "X-Kubebox-Admin-Token")
        (codes "admin"))
      (some (codes "u"))

abbrev public_request : Request
public_request =
    request_to (codes "GET") (codes "/v1/sandboxes/s1/files/a") authorization (codes "Bearer .")

abbrev issuer : TokenIssuer
issuer = record { secret = codes "0123456789abcdef0123456789abcdef" }

abbrev edge : Edge
edge = edge_of issuer (codes "admin")

booted : boot getenv ≡ serving (codes ":8080") edge
unfolding boot new_token_issuer text_eq
booted = refl

abbrev sent_request : Request
sent_request =
    plain_proxy.send
      (direct plain_proxy.director backend (codes "s1") (codes "/files/a") envelope public_request)

forwarded :
    (edge_step blank_codec plain_proxy decode_one parse_one
      (edge_run blank_codec plain_proxy decode_one parse_one edge (registers ∷ []))
      (request (pos 30) public_request none)).1
    ≡ some (proxied (forward sent_request))
unfolding edge_step edge_run dispatch is_internal edge_of new_health_monitor new_route_registry
    serve_http handle_routes handle_register is_authorized new_admin set insert lookup get text_eq
    starts_with handle parse_path trim_prefix cut validate split bearer header_get trim_space
    scope_for contains_text clean_target
forwarded = refl

edge_step-served_example :
    let token_secret = getenv (codes "KUBEBOX_TOKEN_SECRET") in
    (32 ≤ length token_secret)
    × IsAdmitted blank_codec plain_proxy decode_one parse_one
        (record { secret = token_secret })
        (getenv (codes "KUBEBOX_ADMIN_SECRET"))
        (registers ∷ [])
        (pos 30)
        public_request
        sent_request
edge_step-served_example =
    edge_step-served blank_codec plain_proxy decode_one parse_one getenv (codes ":8080") edge
      (registers ∷ []) (pos 30) public_request sent_request none plain_proxy-IsReverseProxy booted
      forwarded

abbrev removes : Event
removes =
    request (pos 0)
      (request_to (codes "DELETE") (codes "/internal/v1/routes/s1") (codes "X-Kubebox-Admin-Token")
        (codes "admin"))
      none

-- No backend answers.
abbrev dead : HttpClient
dead = record { url_text = λ u. u.host; get_status = λ u. none }

-- Two probes fail, and then the sandbox is removed and registered again.
abbrev again : List Event
again =
    registers
    ∷ ticked
    ∷ probed dead (codes "s1")
    ∷ ticked
    ∷ probed dead (codes "s1")
    ∷ removes
    ∷ registers
    ∷ ticked
    ∷ []

abbrev at_edge : Edge
at_edge = edge_run blank_codec plain_proxy decode_one parse_one edge again

-- The first failure of the new registration takes it away.
taken_away :
    (get at_edge.routes (codes "s1") ≡ some backend)
    × (get
          (edge_step blank_codec plain_proxy decode_one parse_one at_edge
            (probed dead (codes "s1"))).0.routes
          (codes "s1")
        ≡ none)
unfolding edge_step edge_run dispatch is_internal edge_of new_health_monitor new_route_registry
    serve_http handle_routes handle_register is_authorized new_admin set insert lookup get text_eq
    starts_with header_get clean_target check_route record_failure probe failures_of
    handle_route_instance unregister trim_prefix has_byte delete list reset_failures inc64 wrap64
    ◌+ℤ◌
taken_away = (refl, refl)

route_lost_example :
    Removing blank_codec plain_proxy decode_one parse_one at_edge
      (probed dead (codes "s1"))
      (codes "s1")
    ⊎ (3
        ≤ streak_after at_edge
            (probed dead (codes "s1"))
            (codes "s1")
            (run_streak blank_codec plain_proxy decode_one parse_one edge again (codes "s1") 0))
route_lost_example =
    route_lost blank_codec plain_proxy decode_one parse_one issuer (codes "admin") again
      (probed dead (codes "s1")) (codes "s1") backend taken_away.0 taken_away.1
