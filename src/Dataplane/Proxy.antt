-- ===== src/Dataplane/Proxy.antt =====
-- `Proxy` of internal/dataplane/proxy.go: the public edge's handler.
pub mod Identity
pub mod Outgoing
pub mod Examples
use kubebox.Common.{
  ℕ, [], ◌∷◌, ◌++◌, List, Text, codes, text_eq, is_empty, Map, lookup, insert, delete, starts_with,
  trim_prefix, trim_left, trim_right, trim_space, cut, join, Option, none, some, Bool, ◌||◌, ◌&&◌,
  if◌then◌else◌,
}
use kubebox.Governance.{Time}
use kubebox.Dataplane.Token.{Codec, TokenIssuer, CredentialEnvelope, Result, ok, err, validate}
use kubebox.Dataplane.Routes.{Url, RouteRegistry, get}

-- Headers under their canonical names.
abbrev pub Header : Type 0
Header = Map (List Text)

pub record Request : Type 0 where
  pub method : Text
  pub url : Url
  pub headers : Header

pub data Outcome : Type 0 where
  -- A JSON answer with a status and an error text.
  respond : ℕ → Text → Outcome
  -- The request that goes to the backend.
  forward : Request → Outcome

abbrev pub authorization : Text
authorization = codes "Authorization"

abbrev pub sandbox_id_header : Text
sandbox_id_header = codes "X-Kubebox-Sandbox-Id"

abbrev pub scope_header : Text
scope_header = codes "X-Kubebox-Scope"

first_value : Option (List Text) → Text
first_value none = []
first_value (some []) = []
first_value (some (v ∷ vs)) = v

unfoldable pub header_get : Header → Text → Text
unfolding first_value
header_get h name = first_value (lookup name h)

unfoldable pub header_set : Header → Text → Text → Header
header_set h name value = insert name (value ∷ []) h

abbrev route_prefix : Text
route_prefix = codes "/v1/sandboxes/"

parse_rest : Text × Option Text → Option (Text × Text)
parse_rest (id, none) = none
parse_rest (id, some rest) = if is_empty id || is_empty rest then none else some (id, b'/' ∷ rest)

unfoldable pub parse_path : Text → Option (Text × Text)
unfolding parse_rest
parse_path path =
    if starts_with path route_prefix
    then parse_rest (cut b'/' (trim_prefix path route_prefix))
    else none

unfoldable pub scope_for : Text → Text → Text
scope_for method path =
    if starts_with path (codes "/commands")
      || starts_with path (codes "/process")
      || starts_with path (codes "/pty")
    then codes "commands"
    else if starts_with path (codes "/files")
    then codes "files"
    else if starts_with path (codes "/network")
    then codes "network"
    else if text_eq method (codes "GET") && text_eq path (codes "/healthz")
    then codes "health"
    else codes "sandbox"

unfoldable pub join_path : Text → Text → Text
join_path base suffix =
    trim_right b'/' (b'/' ∷ trim_right b'/' (trim_left b'/' base)) ++ (b'/' ∷ trim_left b'/' suffix)

-- The credential of a request.
unfoldable pub bearer : Request → Text
bearer r = trim_space (trim_prefix (header_get r.headers authorization) (codes "Bearer "))

-- What `Director` does to the request that `original` has rewritten for the target.
unfoldable pub direct :
    (Url → Request → Request) → Url → Text → Text → CredentialEnvelope → Request → Request
direct original target sandbox_id backend_path envelope req =
    let r = original target req in
    record r {
      url = record r.url { path = join_path target.path backend_path };
      headers =
          header_set (header_set (delete authorization r.headers) sandbox_id_header sandbox_id)
            scope_header (join (b',' ∷ []) envelope.scopes);
    }

-- A reverse proxy of `httputil.NewSingleHostReverseProxy`: the director that it is made with, what
-- it makes of a request between its director and its transport, and the canonical form of a
-- header's name.
pub record ReverseProxy : Type 0 where
  pub director : Url → Request → Request
  pub send : Request → Request
  pub canonical : Text → Text

module _ (codec : Codec) (proxy : ReverseProxy) where
  after_validate : Result CredentialEnvelope → Url → Text → Text → Request → Outcome
  after_validate (err e) target id backend_path r = respond 401 (codes "credential rejected")
  after_validate (ok envelope) target id backend_path r =
      forward (proxy.send (direct proxy.director target id backend_path envelope r))

  with_target : Option Url → TokenIssuer → Time → Text → Text → Request → Outcome
  unfolding after_validate
  with_target none i now id backend_path r = respond 404 (codes "proxy route not found")
  with_target (some target) i now id backend_path r =
      after_validate (validate codec i now (bearer r) id (scope_for r.method backend_path)) target
        id backend_path r

  with_path : Option (Text × Text) → TokenIssuer → RouteRegistry → Time → Request → Outcome
  unfolding with_target
  with_path none i routes now r = respond 404 (codes "sandbox route not found")
  with_path (some (id, backend_path)) i routes now r =
      with_target (get routes id) i now id backend_path r

  unfoldable pub handle : TokenIssuer → RouteRegistry → Time → Request → Outcome
  unfolding with_path
  handle i routes now r = with_path (parse_path r.url.path) i routes now r
