-- ===== src/Commands/EnvdProxy.antt =====
-- cmd/envd-proxy/main.go: the public edge. One registry is shared by the public proxy, the admin
-- interface and the health monitor, whose calls interleave.
pub mod Origin
pub mod Probes
use kubebox.Common.{
  ℕ, [], ◌∷◌, List, Text, codes, text_eq, is_empty, length, ltb, Map, lookup, delete, starts_with,
  ℤ, Option, none, some, Bool, ◌||◌, if◌then◌else◌,
}
use kubebox.Governance.{Time}
use kubebox.Dataplane.Token.{Codec, TokenIssuer, TokenError, Result, ok, err, new_token_issuer}
use kubebox.Dataplane.Routes.{Url, RouteRegistry, new_route_registry, list}
use kubebox.Dataplane.Proxy.{Request, ReverseProxy, Outcome, header_get, handle}
use kubebox.Dataplane.Admin.{
  Admin, AdminRequest, AdminResponse, RouteRequest, new_admin, serve_http,
}
use kubebox.Dataplane.Health.{HealthMonitor, HttpClient, new_health_monitor, probe, check_route}

-- The objects that `main` makes. `pending` is the rest of the snapshot of a pass of the monitor.
pub record Edge : Type 0 where
  pub issuer : TokenIssuer
  pub admin_secret : Text
  pub routes : RouteRegistry
  pub fail_threshold : ℤ
  pub failures : Map ℤ
  pub pending : Map Url

-- The handlers, on the shared registry.
abbrev pub admin_of : Edge → Admin
admin_of e = new_admin e.routes e.admin_secret

abbrev pub monitor_of : Edge → HealthMonitor
monitor_of e = record {
  routes = e.routes;
  fail_threshold = e.fail_threshold;
  failures = e.failures;
}

unfoldable pub edge_of : TokenIssuer → Text → Edge
edge_of issuer admin_secret =
    let monitor = new_health_monitor new_route_registry in
    record {
      issuer = issuer;
      admin_secret = admin_secret;
      routes = monitor.routes;
      fail_threshold = monitor.fail_threshold;
      failures = monitor.failures;
      pending = [];
    }

pub data Boot : Type 0 where
  -- `log.Fatal` with a message.
  fatal : Text → Boot
  -- The address that is listened on.
  serving : Text → Edge → Boot

boot_issued : Result TokenIssuer → Text → Text → Boot
unfolding edge_of
boot_issued (err e) admin_secret addr = fatal (codes "init token issuer")
boot_issued (ok issuer) admin_secret addr = serving addr (edge_of issuer admin_secret)

abbrev pub addr_of : (Text → Text) → Text
addr_of getenv =
    let addr = getenv (codes "KUBEBOX_ADDR") in if is_empty addr then codes ":8080" else addr

-- `main` up to the server, for an environment.
unfoldable pub boot : (Text → Text) → Boot
unfolding boot_issued
boot getenv =
    let token_secret = getenv (codes "KUBEBOX_TOKEN_SECRET") in
    let admin_secret = getenv (codes "KUBEBOX_ADMIN_SECRET") in
    if ltb (length token_secret) 32
    then fatal (codes "KUBEBOX_TOKEN_SECRET must be set and at least 32 bytes")
    else if is_empty admin_secret
    then fatal (codes "KUBEBOX_ADMIN_SECRET must be set")
    else boot_issued (new_token_issuer token_secret) admin_secret (addr_of getenv)

-- What a client is answered: by the admin interface, or by the proxy.
pub data Reply : Type 0 where
  administered : AdminResponse → Reply
  proxied : Outcome → Reply

abbrev admin_token : Text
admin_token = codes "X-Kubebox-Admin-Token"

-- What the admin interface reads of a request whose body is `body`.
abbrev pub admin_request : Request → Option Text → AdminRequest
admin_request r body = record {
  method = r.method;
  path = r.url.path;
  token = header_get r.headers admin_token;
  body = body;
}

-- `handler` gives these paths to the admin interface.
unfoldable pub is_internal : Text → Bool
is_internal path = text_eq path (codes "/healthz") || starts_with path (codes "/internal/")

-- What happens at the edge, in the order in which the lock of the registry lets it happen: a request
-- at a time, a tick that starts a pass of the monitor, and a probe of one route of the snapshot.
pub data Event : Type 0 where
  request : Time → Request → Option Text → Event
  ticked : Event
  probed : HttpClient → Text → Event

administer : Edge → Admin × AdminResponse → Edge × Option Reply
administer e (a, answer) = (record e { routes = a.routes }, some (administered answer))

start_pass : Map Url → Edge → Edge
start_pass [] e = record e { pending = list e.routes }
start_pass (p ∷ rest) e = e

probe_pending : Option Url → HttpClient → Text → Edge → Edge
probe_pending none client id e = e
probe_pending (some target) client id e =
    let m = (check_route (monitor_of e) id (probe client target)).0 in
    record e { routes = m.routes; failures = m.failures; pending = delete id e.pending }

module _ (codec : Codec) (proxy : ReverseProxy) (unmarshal : Text → Option RouteRequest)
    (parse_url : Text → Option Url) where
  unfoldable pub dispatch : Edge → Time → Request → Option Text → Edge × Option Reply
  unfolding administer
  dispatch e now r body =
      if is_internal r.url.path
      then administer e (serve_http unmarshal parse_url (admin_of e) (admin_request r body))
      else (e, some (proxied (handle codec proxy e.issuer e.routes now r)))

  unfoldable pub edge_step : Edge → Event → Edge × Option Reply
  unfolding dispatch start_pass probe_pending
  edge_step e (request now r body) = dispatch e now r body
  edge_step e ticked = (start_pass e.pending e, none)
  edge_step e (probed client id) = (probe_pending (lookup id e.pending) client id e, none)

  unfoldable pub edge_run : Edge → List Event → Edge
  edge_run e [] = e
  edge_run e (x ∷ rest) = edge_run (edge_step e x).0 rest
