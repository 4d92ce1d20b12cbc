-- ===== src/Envd/Service/Transports.antt =====
-- The two transports of internal/envd, service.go and http_gateway.go, side by side.
use kubebox.Common.{
  ℕ, Text, codes, text_eq_refl, is_empty, trim_space, take, Option, none, some, false, Bool-cases,
  ◌≡◌, refl, inl, inr,
}
use kubebox.Envd.Authorize.{
  Denied, identity_required, identity_rejected, scope_rejected, Code, unauthenticated,
  permission_denied, failed_precondition, invalid_argument, internal, not_found, unimplemented,
  http_status, grpc_code, gateway_authorize, server_authorize,
}
use kubebox.Envd.Executor.Command.{ExecResponse}
use kubebox.Envd.Service.{
  Executor, Outcome, ok, err, Reply, answer, failure, WriteRequest, Server, Metadata, exec_reply,
  read_reply, write_reply, denied_text, when_authorized, server_exec_on, server_read_on,
  server_write_on, server_exec, server_read_file, server_write_file,
}
use kubebox.Envd.Service.Gateway.{
  HttpGateway, GatewayRequest, GatewayResponse, GatewayBody, command_result, file_data,
  bytes_written, refuse, reply, write_denied, when_method, when_granted, exec_response,
  read_response, write_response, handle_command, handle_command_body, handle_commands, handle_read,
  handle_files_read, handle_write, handle_write_body, handle_files_write,
}

-- The HTTP status of a gRPC status.
abbrev pub status_of : Code → ℕ
status_of unauthenticated = 401
status_of permission_denied = 403
status_of failed_precondition = 503
status_of invalid_argument = 400
status_of internal = 500
status_of not_found = 404
status_of unimplemented = 501

-- A reply of the server, written by the gateway.
abbrev pub response_of : {A : Type 0} → (A → GatewayBody) → Reply A → GatewayResponse
response_of f (answer a) = reply (f a)
response_of f (failure code message) = refuse (status_of code) message

abbrev pub gateway_of : {E : Type 0} → Server E → HttpGateway E
gateway_of s = record { sandbox_id = s.sandbox_id; executor = s.executor }

abbrev pub transported :
    {E A : Type 0} → (A → GatewayBody) → Server E × Reply A → HttpGateway E × GatewayResponse
transported f (s, r) = (gateway_of s, response_of f r)

module _ {E Er : Type 0} (api : Executor E Er) (parse_command : Text → Option Text)
    (parse_write : Text → Option WriteRequest) where
  write_denied_lem :
      (d : Denied) → write_denied d ≡ refuse (status_of (grpc_code d)) (denied_text d)
  unfolding write_denied grpc_code http_status
  write_denied_lem identity_required = refl
  write_denied_lem identity_rejected = refl
  write_denied_lem scope_rejected = refl

  -- The guards of a handler and of a method, where the method of the request is right.
  guards_agree :
      {A : Type 0} (f : A → GatewayBody) (s : Server E) (method message : Text) (r : GatewayRequest)
      (granted : Option Denied) (out : Server E × Reply A) (body : HttpGateway E × GatewayResponse)
      → r.method ≡ method
      → body ≡ transported f out
      → when_method api parse_command parse_write method
          (gateway_of s)
          r
          message
          (when_granted api parse_command parse_write (gateway_of s) granted body)
        ≡ transported f (when_authorized api s granted out)
  unfolding when_method when_granted when_authorized
  guards_agree f s method message r none out body m b = rw (m, text_eq_refl method) b
  guards_agree f s method message r (some d) out body m b =
      rw (m, text_eq_refl method, write_denied_lem d) refl

  exec_reply-response :
      (out : ExecResponse × Option Er)
      → exec_response api parse_command parse_write out
        ≡ response_of command_result (exec_reply api out)
  unfolding exec_response exec_reply
  exec_reply-response (response, none) = refl
  exec_reply-response (response, some e) = refl

  read_reply-response :
      (out : Outcome Er Text)
      → read_response api parse_command parse_write out ≡ response_of file_data (read_reply api out)
  unfolding read_response read_reply
  read_reply-response (ok bytes) = refl
  read_reply-response (err e) = refl

  write_reply-response :
      (out : Outcome Er ℕ)
      → write_response api parse_command parse_write out
        ≡ response_of bytes_written (write_reply api out)
  unfolding write_response write_reply
  write_reply-response (ok bytes) = refl
  write_reply-response (err e) = refl

  exec_agrees :
      (s : Server E) (x : Option E) (body : Text) (command : Text)
      → parse_command (take 1048576 body) ≡ some command
      → handle_command_body api parse_command parse_write (gateway_of s) x (some body)
        ≡ transported command_result (server_exec_on api s x command)
  unfolding handle_command_body handle_command server_exec_on
  exec_agrees s none body command h = refl
  exec_agrees s (some x) body command h = rw h (elim (Bool-cases (is_empty (trim_space command))) [
    | inl blank ↦ rw blank refl
    | inr given ↦ rw (given, exec_reply-response (api.exec x command).1) refl
  ])

  -- A command over HTTP does to the executor, and answers, what it does and answers over gRPC, denials
  -- and errors included, for a POST whose body decodes to the command, and where the two checks of
  -- the identity agree.
  pub handle_commands-server_exec :
      (s : Server E) (md : Metadata) (r : GatewayRequest) (body command : Text)
      → r.method ≡ codes "POST"
      → r.body ≡ some body
      → parse_command (take 1048576 body) ≡ some command
      → gateway_authorize s.sandbox_id r.headers (codes "commands")
        ≡ server_authorize s.sandbox_id md (codes "commands")
      → handle_commands api parse_command parse_write (gateway_of s) r
        ≡ transported command_result (server_exec api s md command)
  unfolding handle_commands server_exec
  handle_commands-server_exec s md r body command m b decoded agree =
      rw (agree, b)
        (guards_agree command_result s (codes "POST") (codes "POST required") r _
          (server_exec_on api s s.executor command) _ m
          (exec_agrees s s.executor body command decoded))

  read_agrees :
      (s : Server E) (x : Option E) (path : Text)
      → is_empty path ≡ false
      → handle_read api parse_command parse_write (gateway_of s) x path
        ≡ transported file_data (server_read_on api s x path)
  unfolding handle_read server_read_on
  read_agrees s none path given = refl
  read_agrees s (some x) path given = rw (given, read_reply-response (api.read_file x path)) refl

  -- A read over HTTP answers what it answers over gRPC, denials and errors included, for a GET whose
  -- path is not empty, and where the two checks of the identity agree; neither changes the executor.
  pub handle_files_read-server_read_file :
      (s : Server E) (md : Metadata) (r : GatewayRequest)
      → r.method ≡ codes "GET"
      → is_empty r.query_path ≡ false
      → gateway_authorize s.sandbox_id r.headers (codes "files")
        ≡ server_authorize s.sandbox_id md (codes "files")
      → handle_files_read api parse_command parse_write (gateway_of s) r
        ≡ transported file_data (server_read_file api s md r.query_path)
  unfolding handle_files_read server_read_file
  handle_files_read-server_read_file s md r m given agree = rw agree (
      guards_agree file_data s (codes "GET") (codes "GET required") r _
        (server_read_on api s s.executor r.query_path) _ m
        (read_agrees s s.executor r.query_path given))

  write_agrees :
      (s : Server E) (x : Option E) (body : Text) (req : WriteRequest)
      → parse_write (take 1048576 body) ≡ some req
      → is_empty req.path ≡ false
      → handle_write_body api parse_command parse_write (gateway_of s) x (some body)
        ≡ transported bytes_written (server_write_on api s x req)
  unfolding handle_write_body handle_write server_write_on
  write_agrees s none body req h given = refl
  write_agrees s (some x) body req h given =
      rw (h, given, write_reply-response (api.write_file x req.path req.bytes).1) refl

  -- A write over HTTP does to the executor, and answers, what it does and answers over gRPC, denials
  -- and errors included, for a POST whose body decodes to a request with a path that is not empty,
  -- and where the two checks of the identity agree.
  pub handle_files_write-server_write_file :
      (s : Server E) (md : Metadata) (r : GatewayRequest) (body : Text) (req : WriteRequest)
      → r.method ≡ codes "POST"
      → r.body ≡ some body
      → parse_write (take 1048576 body) ≡ some req
      → is_empty req.path ≡ false
      → gateway_authorize s.sandbox_id r.headers (codes "files")
        ≡ server_authorize s.sandbox_id md (codes "files")
      → handle_files_write api parse_command parse_write (gateway_of s) r
        ≡ transported bytes_written (server_write_file api s md req)
  unfolding handle_files_write server_write_file
  handle_files_write-server_write_file s md r body req m b decoded given agree =
      rw (agree, b)
        (guards_agree bytes_written s (codes "POST") (codes "POST required") r _
          (server_write_on api s s.executor req) _ m
          (write_agrees s s.executor body req decoded given))
