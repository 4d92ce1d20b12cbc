-- ===== src/Envd/Authorize/Agreement.antt =====
-- The identity checks of internal/envd/service.go and http_gateway.go on the same values.
use kubebox.Common.{◌∷◌, List, Text, codes, is_empty, Map, trim_space, some, false, ◌≡◌, refl}
use kubebox.Dataplane.Proxy.{Header, sandbox_id_header, scope_header}
use kubebox.Envd.Authorize.{
  values, gateway_identity, server_identity, gateway_authorize, server_authorize,
}

-- The gateway trims the identity and refuses a blank one: on every other the two checks agree.
pub gateway_authorize-server_authorize :
    (sandbox_id : Text) (headers : Header) (md : Map (List Text)) (scope v : Text) (vs : List Text)
    → values headers sandbox_id_header ≡ v ∷ vs
    → values md (codes "x-kubebox-sandbox-id") ≡ v ∷ vs
    → values headers scope_header ≡ values md (codes "x-kubebox-scope")
    → trim_space v ≡ v
    → is_empty v ≡ false
    → gateway_authorize sandbox_id headers scope ≡ server_authorize sandbox_id (some md) scope
unfolding gateway_authorize server_authorize gateway_identity server_identity
gateway_authorize-server_authorize sandbox_id headers md scope v vs a b same trimmed given =
    rw (a, b, same, trimmed, given) refl
