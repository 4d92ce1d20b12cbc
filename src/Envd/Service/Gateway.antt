-- ===== src/Envd/Service/Gateway.antt =====
-- internal/envd/http_gateway.go: the execution service over HTTP.
use kubebox.Common.{
  ℕ, [], ◌∷◌, Text, codes, text_eq, is_empty, trim_space, take, Map, Option, none, some, not,
  if◌then◌else◌,
}
use kubebox.Dataplane.Proxy.{Header}
use kubebox.Envd.Authorize.{Denied, http_status, gateway_authorize}
use kubebox.Envd.Executor.Command.{ExecResponse}
use kubebox.Envd.Service.{Outcome, ok, err, Executor, WriteRequest, denied_text}

pub record HttpGateway (E : Type 0) : Type 0 where
  pub sandbox_id : Text
  pub executor : Option E

abbrev pub new_http_gateway : {E : Type 0} → Text → Option E → HttpGateway E
new_http_gateway sandbox_id executor = record { sandbox_id = sandbox_id; executor = executor }

-- `query_path` is the value of `path` in the query, or empty; `body` is `none` where it cannot be
-- read.
pub record GatewayRequest : Type 0 where
  pub method : Text
  pub headers : Header
  pub query_path : Text
  pub body : Option Text

-- What is written as JSON.
pub data GatewayBody : Type 0 where
  health_ok : GatewayBody
  error_text : Text → GatewayBody
  command_result : ExecResponse → GatewayBody
  file_data : Text → GatewayBody
  bytes_written : ℕ → GatewayBody

pub record GatewayResponse : Type 0 where
  pub status : ℕ
  pub body : GatewayBody

abbrev pub refuse : ℕ → Text → GatewayResponse
refuse status message = record { status = status; body = error_text message }

abbrev pub reply : GatewayBody → GatewayResponse
reply body = record { status = 200; body = body }

-- The error of `authorize`, as `writeGatewayError` writes it.
unfoldable pub write_denied : Denied → GatewayResponse
write_denied d = refuse (http_status d) (denied_text d)

pub data GatewayEndpoint : Type 0 where
  health_endpoint commands_endpoint read_endpoint write_endpoint : GatewayEndpoint

-- The patterns that `Handler` registers, for the library's multiplexer.
abbrev pub gateway_endpoints : Map GatewayEndpoint
gateway_endpoints =
    (codes "/healthz", health_endpoint)
    ∷ (codes "/commands", commands_endpoint)
    ∷ (codes "/files/read", read_endpoint)
    ∷ (codes "/files/write", write_endpoint)
    ∷ []

abbrev pub unavailable : GatewayResponse
unavailable = refuse 503 (codes "executor unavailable")

-- `parse_command` and `parse_write` decode a body.
module _ {E Er : Type 0} (api : Executor E Er) (parse_command : Text → Option Text)
    (parse_write : Text → Option WriteRequest) where
  -- The guards that three of the handlers begin with.
  unfoldable pub when_method :
      Text
      → HttpGateway E
      → GatewayRequest
      → Text
      → HttpGateway E × GatewayResponse
      → HttpGateway E × GatewayResponse
  when_method method g r message out =
      if not (text_eq r.method method) then (g, refuse 405 message) else out

  unfoldable pub when_granted :
      HttpGateway E
      → Option Denied
      → HttpGateway E × GatewayResponse
      → HttpGateway E × GatewayResponse
  when_granted g (some d) out = (g, write_denied d)
  when_granted g none out = out

  unfoldable pub exec_response : ExecResponse × Option Er → GatewayResponse
  exec_response (response, some e) = refuse 500 (api.message e)
  exec_response (response, none) = reply (command_result response)

  unfoldable pub handle_command : HttpGateway E → E → Option Text → HttpGateway E × GatewayResponse
  unfolding exec_response
  handle_command g x none = (g, refuse 400 (codes "invalid JSON"))
  handle_command g x (some command) =
      if is_empty (trim_space command)
      then (g, refuse 400 (codes "command is required"))
      else let (x', out) = api.exec x command in
        (record g { executor = some x' }, exec_response out)

  -- At most 1 MiB of a body is read.
  unfoldable pub handle_command_body :
      HttpGateway E → Option E → Option Text → HttpGateway E × GatewayResponse
  unfolding handle_command
  handle_command_body g none body = (g, unavailable)
  handle_command_body g (some x) none = (g, refuse 400 (codes "read body"))
  handle_command_body g (some x) (some body) =
      handle_command g x (parse_command (take 1048576 body))

  unfoldable pub handle_commands : HttpGateway E → GatewayRequest → HttpGateway E × GatewayResponse
  unfolding when_method when_granted handle_command_body
  handle_commands g r = when_method (codes "POST") g r (codes "POST required") (
      when_granted g (gateway_authorize g.sandbox_id r.headers (codes "commands"))
        (handle_command_body g g.executor r.body))

  unfoldable pub read_response : Outcome Er Text → GatewayResponse
  read_response (err e) = refuse 404 (api.message e)
  read_response (ok bytes) = reply (file_data bytes)

  unfoldable pub handle_read : HttpGateway E → Option E → Text → HttpGateway E × GatewayResponse
  unfolding read_response
  handle_read g none path = (g, unavailable)
  handle_read g (some x) path =
      if is_empty path
      then (g, refuse 400 (codes "path is required"))
      else (g, read_response (api.read_file x path))

  unfoldable pub handle_files_read :
      HttpGateway E → GatewayRequest → HttpGateway E × GatewayResponse
  unfolding when_method when_granted handle_read
  handle_files_read g r = when_method (codes "GET") g r (codes "GET required") (
      when_granted g (gateway_authorize g.sandbox_id r.headers (codes "files"))
        (handle_read g g.executor r.query_path))

  unfoldable pub write_response : Outcome Er ℕ → GatewayResponse
  write_response (err e) = refuse 400 (api.message e)
  write_response (ok n) = reply (bytes_written n)

  unfoldable pub handle_write :
      HttpGateway E → E → Option WriteRequest → HttpGateway E × GatewayResponse
  unfolding write_response
  handle_write g x none = (g, refuse 400 (codes "invalid JSON"))
  handle_write g x (some req) =
      if is_empty req.path
      then (g, refuse 400 (codes "path is required"))
      else let (x', out) = api.write_file x req.path req.bytes in
        (record g { executor = some x' }, write_response out)

  unfoldable pub handle_write_body :
      HttpGateway E → Option E → Option Text → HttpGateway E × GatewayResponse
  unfolding handle_write
  handle_write_body g none body = (g, unavailable)
  handle_write_body g (some x) none = (g, refuse 400 (codes "read body"))
  handle_write_body g (some x) (some body) = handle_write g x (parse_write (take 1048576 body))

  unfoldable pub handle_files_write :
      HttpGateway E → GatewayRequest → HttpGateway E × GatewayResponse
  unfolding when_method when_granted handle_write_body
  handle_files_write g r = when_method (codes "POST") g r (codes "POST required") (
      when_granted g (gateway_authorize g.sandbox_id r.headers (codes "files"))
        (handle_write_body g g.executor r.body))

  -- The handler of an endpoint.
  unfoldable pub gateway_serve :
      HttpGateway E → GatewayEndpoint → GatewayRequest → HttpGateway E × GatewayResponse
  unfolding handle_commands handle_files_read handle_files_write
  gateway_serve g health_endpoint r = (g, reply health_ok)
  gateway_serve g commands_endpoint r = handle_commands g r
  gateway_serve g read_endpoint r = handle_files_read g r
  gateway_serve g write_endpoint r = handle_files_write g r
