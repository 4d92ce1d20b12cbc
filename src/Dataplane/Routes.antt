-- ===== src/Dataplane/Routes.antt =====
-- `RouteRegistry` of internal/dataplane/proxy.go. The lock makes each method one step.
use kubebox.Common.{
  [], Text, codes, text_eq, is_empty, Map, lookup, insert, delete, Option, none, some, Bool, true,
  false, not, ◌||◌, if◌then◌else◌,
}

-- The fields of `url.URL` that the program reads or writes.
pub record Url : Type 0 where
  pub scheme : Text
  pub user : Option Text
  pub host : Text
  pub path : Text
  pub raw_query : Text
  pub fragment : Text

abbrev pub RouteRegistry : Type 0
RouteRegistry = Map Url

unfoldable pub new_route_registry : RouteRegistry
new_route_registry = []

abbrev pub is_http : Url → Bool
is_http u = text_eq u.scheme (codes "http") || text_eq u.scheme (codes "https")

-- A target that `Set` stores: without credentials and fragment.
unfoldable pub clean_target : Url → Url
clean_target u = record u { user = none; fragment = [] }

set_target : RouteRegistry → Text → Url → RouteRegistry × Bool
unfolding clean_target
set_target r sandbox_id target =
    if is_empty sandbox_id || not (is_http target) || is_empty target.host
    then (r, false)
    else (insert sandbox_id (clean_target target) r, true)

-- `false` stands for the error "invalid envd route"; the target `none` is nil.
unfoldable pub set : RouteRegistry → Text → Option Url → RouteRegistry × Bool
unfolding set_target
set r sandbox_id none = (r, false)
set r sandbox_id (some target) = set_target r sandbox_id target

unfoldable pub delete_route : RouteRegistry → Text → RouteRegistry
delete_route r sandbox_id = delete sandbox_id r

unfoldable pub get : RouteRegistry → Text → Option Url
get r sandbox_id = lookup sandbox_id r

-- The snapshot of `List`, whose order Go leaves open.
unfoldable pub list : RouteRegistry → Map Url
list r = r

unregister_found : Option Url → RouteRegistry → Text → RouteRegistry × Bool
unregister_found none r sandbox_id = (r, false)
unregister_found (some u) r sandbox_id = (delete sandbox_id r, true)

unfoldable pub unregister : RouteRegistry → Text → RouteRegistry × Bool
unfolding unregister_found
unregister r sandbox_id = unregister_found (lookup sandbox_id r) r sandbox_id
