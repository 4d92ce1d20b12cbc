-- ===== src/Envd/Service/Access.antt =====
-- Who reaches the executor through the gateway of internal/envd/http_gateway.go.
use kubebox.Common.{
  Text, codes, text_eq, Option, none, some, Bool-cases, ◌≡◌, refl, ◌∙◌, ap, ◌⊎◌, inl, inr,
}
use kubebox.Envd.Authorize.{Denied, gateway_authorize}
use kubebox.Envd.Service.{Executor, WriteRequest}
use kubebox.Envd.Service.Gateway.{
  HttpGateway, GatewayRequest, GatewayResponse, GatewayEndpoint, health_endpoint, commands_endpoint,
  read_endpoint, write_endpoint, write_denied, when_method, when_granted, handle_commands,
  handle_files_read, handle_files_write, gateway_serve, handle_command_body, handle_read,
  handle_write_body,
}

some_inj : {A : Type 0} {x y : A} → some x ≡ some y → x ≡ y
some_inj h = cc

-- The scope that an endpoint asks for; health asks for none.
abbrev pub scope_of : GatewayEndpoint → Option Text
scope_of health_endpoint = none
scope_of commands_endpoint = some (codes "commands")
scope_of read_endpoint = some (codes "files")
scope_of write_endpoint = some (codes "files")

module _ {E Er : Type 0} (api : Executor E Er) (parse_command : Text → Option Text)
    (parse_write : Text → Option WriteRequest) where
  guards_denied :
      (method message : Text) (g : HttpGateway E) (r : GatewayRequest) (d : Denied)
      (granted : Option Denied) (out : HttpGateway E × GatewayResponse)
      → granted ≡ some d
      → let result =
          when_method api parse_command parse_write method g r message
            (when_granted api parse_command parse_write g granted out) in
        (result.0 ≡ g) × ((result.1.status ≡ 405) ⊎ (result.1 ≡ write_denied d))
  unfolding when_method when_granted
  guards_denied method message g r d granted out denied =
      elim (Bool-cases (text_eq r.method method)) [
        | inl same ↦ rw (same, denied) (refl, inr refl)
        | inr differs ↦ rw differs (refl, inl refl)
      ]

  -- A request that is not authorized for the scope of its endpoint never reaches the executor: the
  -- gateway stays as it is, and the answer is 405 or the status and message of the denial.
  pub gateway_serve-denied :
      (g : HttpGateway E) (endpoint : GatewayEndpoint) (r : GatewayRequest) (scope : Text)
      (d : Denied)
      → scope_of endpoint ≡ some scope
      → gateway_authorize g.sandbox_id r.headers scope ≡ some d
      → let out = gateway_serve api parse_command parse_write g endpoint r in
        (out.0 ≡ g) × ((out.1.status ≡ 405) ⊎ (out.1 ≡ write_denied d))
  unfolding gateway_serve handle_commands handle_files_read handle_files_write
  gateway_serve-denied g health_endpoint r scope d asks denied = cc
  gateway_serve-denied g commands_endpoint r scope d asks denied =
      guards_denied (codes "POST") (codes "POST required") g r d _
        (handle_command_body api parse_command parse_write g g.executor r.body)
        (ap (gateway_authorize g.sandbox_id r.headers) (some_inj asks) ∙ denied)
  gateway_serve-denied g read_endpoint r scope d asks denied =
      guards_denied (codes "GET") (codes "GET required") g r d _
        (handle_read api parse_command parse_write g g.executor r.query_path)
        (ap (gateway_authorize g.sandbox_id r.headers) (some_inj asks) ∙ denied)
  gateway_serve-denied g write_endpoint r scope d asks denied =
      guards_denied (codes "POST") (codes "POST required") g r d _
        (handle_write_body api parse_command parse_write g g.executor r.body)
        (ap (gateway_authorize g.sandbox_id r.headers) (some_inj asks) ∙ denied)
