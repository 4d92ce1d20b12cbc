-- ===== src/Envd/Authorize.antt =====
-- The two identity checks of internal/envd: `Server.authorize` of service.go and
-- `HTTPGateway.authorize` of http_gateway.go.
pub mod Chain
pub mod Agreement
use kubebox.Common.{
  ℕ, [], ◌∷◌, List, Text, codes, text_eq, is_empty, Map, lookup, split, trim_space, Option, none,
  some, Bool, true, false, not, if◌then◌else◌,
}
use kubebox.Dataplane.Proxy.{Header, sandbox_id_header, scope_header}

pub data Denied : Type 0 where
  identity_required identity_rejected scope_rejected : Denied

-- The status codes of the two transports.
pub data Code : Type 0 where
  unauthenticated permission_denied failed_precondition invalid_argument internal not_found
        unimplemented :
      Code

unfoldable pub grpc_code : Denied → Code
grpc_code identity_required = unauthenticated
grpc_code identity_rejected = permission_denied
grpc_code scope_rejected = permission_denied

unfoldable pub http_status : Denied → ℕ
http_status identity_required = 401
http_status identity_rejected = 403
http_status scope_rejected = 403

-- The inner loop, over the scopes of one value, and the outer one, over the values.
unfoldable pub grants : List Text → Text → Bool
grants [] scope = false
grants (granted ∷ rest) scope =
    if text_eq (trim_space granted) scope then true else grants rest scope

unfoldable pub any_grants : List Text → Text → Bool
any_grants [] scope = false
any_grants (value ∷ values) scope =
    if grants (split b',' value) scope then true else any_grants values scope

-- The values under a name; a name that is missing has none.
values_of : Option (List Text) → List Text
values_of none = []
values_of (some vs) = vs

unfoldable pub values : Map (List Text) → Text → List Text
unfolding values_of
values h name = values_of (lookup name h)

check_scope : List Text → Text → Option Denied
check_scope scopes scope = if any_grants scopes scope then none else some scope_rejected

gateway_identity : List Text → Text → List Text → Text → Option Denied
unfolding check_scope
gateway_identity [] sandbox_id scopes scope = some identity_required
gateway_identity (v ∷ vs) sandbox_id scopes scope =
    if is_empty (trim_space v)
    then some identity_required
    else if not (text_eq (trim_space v) sandbox_id)
    then some identity_rejected
    else check_scope scopes scope

-- `HTTPGateway.authorize`: `none` stands for no error.
unfoldable pub gateway_authorize : Text → Header → Text → Option Denied
unfolding gateway_identity values
gateway_authorize sandbox_id headers scope =
    gateway_identity (values headers sandbox_id_header) sandbox_id (values headers scope_header)
      scope

server_identity : List Text → Text → List Text → Text → Option Denied
unfolding check_scope
server_identity [] sandbox_id scopes scope = some identity_required
server_identity (v ∷ vs) sandbox_id scopes scope =
    if not (text_eq v sandbox_id) then some identity_rejected else check_scope scopes scope

-- `Server.authorize`, over the incoming metadata, whose keys are in lower case.
unfoldable pub server_authorize : Text → Option (Map (List Text)) → Text → Option Denied
unfolding server_identity values
server_authorize sandbox_id none scope = some identity_required
server_authorize sandbox_id (some md) scope =
    server_identity (values md (codes "x-kubebox-sandbox-id")) sandbox_id
      (values md (codes "x-kubebox-scope")) scope
