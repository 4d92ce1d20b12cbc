-- ===== src/Dataplane/Admin.antt =====
-- internal/dataplane/admin.go: the route interface of the control plane. An answer is a status and
-- the value that is written as JSON.
pub mod Access
pub mod Effects
pub mod Registration
pub mod Origin
pub mod Removal
use kubebox.Common.{
  ℕ, [], ◌∷◌, Text, codes, text_eq, is_empty, Map, starts_with, trim_prefix, has_byte, take, Option,
  none, some, Bool, true, false, not, ◌||◌, if◌then◌else◌,
}
use kubebox.Dataplane.Routes.{Url, RouteRegistry, set, list, unregister}

pub record Admin : Type 0 where
  pub routes : RouteRegistry
  pub admin_secret : Text

unfoldable pub new_admin : RouteRegistry → Text → Admin
new_admin routes admin_secret = record { routes = routes; admin_secret = admin_secret }

-- `token` is the first value of the admin token's header, or empty; `body` is `none` where it cannot
-- be read.
pub record AdminRequest : Type 0 where
  pub method : Text
  pub path : Text
  pub token : Text
  pub body : Option Text

pub data Answer : Type 0 where
  status_text : Text → Answer
  error_text : Text → Answer
  route_list : Map Url → Answer

pub record AdminResponse : Type 0 where
  pub status : ℕ
  pub answer : Answer

pub record RouteRequest : Type 0 where
  pub sandbox_id : Text
  pub target : Text

abbrev pub refuse : ℕ → Text → AdminResponse
refuse status message = record { status = status; answer = error_text message }

abbrev pub confirm : ℕ → Text → AdminResponse
confirm status message = record { status = status; answer = status_text message }

unfoldable pub is_authorized : Admin → AdminRequest → Bool
is_authorized a r =
    if is_empty a.admin_secret
    then false
    else if is_empty r.token
    then false
    else text_eq r.token a.admin_secret

abbrev pub unauthorized : AdminResponse
unauthorized = refuse 401 (codes "unauthorized")

abbrev pub method_refused : AdminResponse
method_refused = refuse 405 (codes "method not allowed")

handle_unregistered : Admin → RouteRegistry × Bool → Admin × AdminResponse
handle_unregistered a (routes, false) = (a, refuse 404 (codes "route not found"))
handle_unregistered a (routes, true) =
    (record a { routes = routes }, confirm 200 (codes "unregistered"))

unfoldable pub handle_route_instance : Admin → AdminRequest → Admin × AdminResponse
unfolding handle_unregistered
handle_route_instance a r =
    let sandbox_id = trim_prefix r.path (codes "/internal/v1/routes/") in
    if not (text_eq r.method (codes "DELETE"))
    then (a, method_refused)
    else if not (is_authorized a r)
    then (a, unauthorized)
    else if is_empty sandbox_id || has_byte b'/' sandbox_id
    then (a, refuse 400 (codes "sandboxId is required"))
    else handle_unregistered a (unregister a.routes sandbox_id)

handle_set : Admin → RouteRegistry × Bool → Admin × AdminResponse
handle_set a (routes, false) = (a, refuse 400 (codes "invalid envd route"))
handle_set a (routes, true) = (record a { routes = routes }, confirm 201 (codes "registered"))

handle_target : Admin → Text → Option Url → Admin × AdminResponse
unfolding handle_set
handle_target a sandbox_id none = (a, refuse 400 (codes "invalid target URL"))
handle_target a sandbox_id (some target) = handle_set a (set a.routes sandbox_id (some target))

-- `unmarshal` decodes the body of a registration, and `parse_url` is `url.Parse`.
module _ (unmarshal : Text → Option RouteRequest) (parse_url : Text → Option Url) where
  handle_parsed : Admin → Option RouteRequest → Admin × AdminResponse
  unfolding handle_target
  handle_parsed a none = (a, refuse 400 (codes "invalid JSON"))
  handle_parsed a (some req) =
      if is_empty req.sandbox_id || is_empty req.target
      then (a, refuse 400 (codes "sandboxId and target are required"))
      else handle_target a req.sandbox_id (parse_url req.target)

  -- At most 64 KiB of the body are read.
  handle_body : Admin → Option Text → Admin × AdminResponse
  unfolding handle_parsed
  handle_body a none = (a, refuse 400 (codes "read body"))
  handle_body a (some body) = handle_parsed a (unmarshal (take 65536 body))

  unfoldable pub handle_register : Admin → AdminRequest → Admin × AdminResponse
  unfolding handle_body
  handle_register a r = if not (is_authorized a r) then (a, unauthorized) else handle_body a r.body

  unfoldable pub handle_routes : Admin → AdminRequest → Admin × AdminResponse
  unfolding handle_register
  handle_routes a r =
      if text_eq r.method (codes "POST")
      then handle_register a r
      else if text_eq r.method (codes "GET")
      then (if is_authorized a r
          then (a, record { status = 200; answer = route_list (list a.routes) })
          else (a, unauthorized))
      else (a, method_refused)

  unfoldable pub serve_http : Admin → AdminRequest → Admin × AdminResponse
  unfolding handle_routes handle_route_instance
  serve_http a r =
      if text_eq r.path (codes "/healthz")
      then (a, confirm 200 (codes "ok"))
      else if text_eq r.path (codes "/internal/v1/routes")
      then handle_routes a r
      else if starts_with r.path (codes "/internal/v1/routes/")
      then handle_route_instance a r
      else (a, refuse 404 (codes "not found"))
