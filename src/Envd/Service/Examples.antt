-- ===== src/Envd/Service/Examples.antt =====
-- Runs of the service and of the gateway on the executor that keeps its files in memory.
use kubebox.Common.{
  [], ◌∷◌, List, Text, codes, text_eq, is_empty, trim_space, length, lookup, Map, Option, some,
  true, false, ◌||◌, ◌≡◌, refl, ◌⊎◌,
}
use kubebox.Dataplane.Proxy.{Header, sandbox_id_header, scope_header}
use kubebox.Envd.Authorize.{identity_rejected, values, gateway_authorize, server_authorize}
use kubebox.Envd.Authorize.Agreement.{gateway_authorize-server_authorize}
use kubebox.Envd.Service.{ok, err, WriteRequest, Server, server_exec}
use kubebox.Envd.Service.Memory.{
  MemoryExecutor, invalid_path, contains, memory_read_file, memory_write_file, memory_executor,
  write_file-read_file,
}
use kubebox.Envd.Service.Gateway.{
  GatewayRequest, command_result, write_endpoint, write_denied, gateway_serve, handle_commands,
}
use kubebox.Envd.Service.Access.{gateway_serve-denied}
use kubebox.Envd.Service.Transports.{gateway_of, transported, handle_commands-server_exec}

write_file-read_file_example :
    let out = memory_write_file [] (codes "a") (codes "xy") in
    ((is_empty (codes "a") || contains (codes "a") (codes "..") ≡ true)
      × (out ≡ ([], err invalid_path)))
    ⊎ ((is_empty (codes "a") || contains (codes "a") (codes "..") ≡ false)
        × (out.1 ≡ ok (length (codes "xy")))
        × (memory_read_file out.0 (codes "a") ≡ ok (codes "xy"))
        × ((other : Text)
            → text_eq (codes "a") other ≡ false
            → memory_read_file out.0 other ≡ memory_read_file [] other))
write_file-read_file_example = write_file-read_file [] (codes "a") (codes "xy")

abbrev parse_command : Text → Option Text
parse_command body = some body

abbrev parse_write : Text → Option WriteRequest
parse_write body = some (record { path = codes "a"; bytes = body })

abbrev server : Server MemoryExecutor
server = record { sandbox_id = codes "s"; executor = some [] }

abbrev headers_of : Text → Header
headers_of id = (sandbox_id_header, id ∷ []) ∷ (scope_header, codes "files,commands" ∷ []) ∷ []

abbrev metadata : Map (List Text)
metadata =
    (codes "x-kubebox-sandbox-id", codes "s" ∷ [])
    ∷ (codes "x-kubebox-scope", codes "files,commands" ∷ [])
    ∷ []

abbrev request_of : Text → GatewayRequest
request_of id = record {
  method = codes "POST";
  headers = headers_of id;
  query_path = [];
  body = some (codes "ls");
}

wrong_identity :
    gateway_authorize (codes "s") (headers_of (codes "t")) (codes "files") ≡ some identity_rejected
unfolding gateway_authorize values lookup text_eq trim_space
wrong_identity = refl

gateway_serve-denied_example :
    let out =
      gateway_serve memory_executor parse_command parse_write
        (gateway_of server)
        write_endpoint
        (request_of (codes "t")) in
    (out.0 ≡ gateway_of server) × ((out.1.status ≡ 405) ⊎ (out.1 ≡ write_denied identity_rejected))
gateway_serve-denied_example =
    gateway_serve-denied memory_executor parse_command parse_write (gateway_of server)
      write_endpoint (request_of (codes "t")) (codes "files") identity_rejected refl wrong_identity

same_scopes :
    values (headers_of (codes "s")) scope_header ≡ values metadata (codes "x-kubebox-scope")
unfolding values lookup text_eq
same_scopes = refl

header_identity : values (headers_of (codes "s")) sandbox_id_header ≡ codes "s" ∷ []
unfolding values lookup text_eq
header_identity = refl

metadata_identity : values metadata (codes "x-kubebox-sandbox-id") ≡ codes "s" ∷ []
unfolding values lookup text_eq
metadata_identity = refl

trimmed : trim_space (codes "s") ≡ codes "s"
unfolding trim_space
trimmed = refl

checks_agree :
    gateway_authorize (codes "s") (headers_of (codes "s")) (codes "commands")
    ≡ server_authorize (codes "s") (some metadata) (codes "commands")
checks_agree =
    gateway_authorize-server_authorize (codes "s") (headers_of (codes "s")) metadata
      (codes "commands") (codes "s") [] header_identity metadata_identity same_scopes trimmed refl

handle_commands-server_exec_example :
    handle_commands memory_executor parse_command parse_write
      (gateway_of server)
      (request_of (codes "s"))
    ≡ transported command_result (server_exec memory_executor server (some metadata) (codes "ls"))
handle_commands-server_exec_example =
    handle_commands-server_exec memory_executor parse_command parse_write server (some metadata)
      (request_of (codes "s")) (codes "ls") (codes "ls") refl refl refl checks_agree
