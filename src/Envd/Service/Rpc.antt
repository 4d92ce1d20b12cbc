-- ===== src/Envd/Service/Rpc.antt =====
-- The method table of the gRPC service and its client, internal/envd/service.go.
pub mod Calls
use kubebox.Common.{ℕ, [], ◌∷◌, ◌++◌, List, Text, codes, Map, Option, none, some}
use kubebox.Envd.Authorize.{Code, unimplemented}
use kubebox.Envd.Executor.Command.{ExecResponse}
use kubebox.Envd.Service.{
  Executor, Reply, answer, failure, Metadata, Server, WriteRequest, health_status, server_exec,
  server_read_file, server_write_file,
}

pub data HealthRequest : Type 0 where
  health_request : HealthRequest

pub record HealthResponse : Type 0 where
  pub status : Text

pub record ExecRequest : Type 0 where
  pub command : Text

pub record ReadFileRequest : Type 0 where
  pub path : Text

pub record ReadFileResponse : Type 0 where
  pub bytes : Text

pub record WriteFileResponse : Type 0 where
  pub bytes_written : ℕ

-- `EnvdServer`: an implementation of the service, over its state.
pub record EnvdServer (S : Type 0) : Type 0 where
  pub health : S → Metadata → HealthRequest → S × Reply HealthResponse
  pub exec : S → Metadata → ExecRequest → S × Reply ExecResponse
  pub read_file : S → Metadata → ReadFileRequest → S × Reply ReadFileResponse
  pub write_file : S → Metadata → WriteRequest → S × Reply WriteFileResponse

abbrev not_implemented : {S A : Type 0} → S → Text → S × Reply A
not_implemented s method =
    (s, failure unimplemented (codes "method " ++ method ++ codes " not implemented"))

unfoldable pub unimplemented_envd_server : {S : Type 0} → EnvdServer S
unimplemented_envd_server = record {
  health = λ s md req. not_implemented s (codes "Health");
  exec = λ s md req. not_implemented s (codes "Exec");
  read_file = λ s md req. not_implemented s (codes "ReadFile");
  write_file = λ s md req. not_implemented s (codes "WriteFile");
}

unfoldable pub replied : {S A B : Type 0} → (A → B) → S × Reply A → S × Reply B
replied f (s, answer a) = (s, answer (f a))
replied f (s, failure code message) = (s, failure code message)

-- `Server` implements the service.
unfoldable pub server_methods : {E Er : Type 0} → Executor E Er → EnvdServer (Server E)
unfolding replied
server_methods api = record {
  health = λ s md req. (s, answer (record { status = health_status }));
  exec = λ s md req. server_exec api s md req.command;
  read_file =
      λ s md req. replied (λ bytes. record { bytes = bytes }) (server_read_file api s md req.path);
  write_file =
      λ s md req. replied (λ n. record { bytes_written = n }) (server_write_file api s md req);
}

-- The result of `dec`: a value, or the error that the library makes of a body that it cannot decode.
pub data Decoded (A : Type 0) : Type 0 where
  decoded : A → Decoded A
  undecoded : Code → Text → Decoded A

unfoldable pub after_dec : {S A B : Type 0} → (A → S × Reply B) → S → Decoded A → S × Reply B
after_dec method s (undecoded code message) = (s, failure code message)
after_dec method s (decoded req) = method req

module _ {S : Type 0} where
  unfoldable pub health_handler :
      EnvdServer S → S → Metadata → Decoded HealthRequest → S × Reply HealthResponse
  unfolding after_dec
  health_handler srv s md dec = after_dec (srv.health s md) s dec

  unfoldable pub exec_handler :
      EnvdServer S → S → Metadata → Decoded ExecRequest → S × Reply ExecResponse
  unfolding after_dec
  exec_handler srv s md dec = after_dec (srv.exec s md) s dec

  unfoldable pub read_file_handler :
      EnvdServer S → S → Metadata → Decoded ReadFileRequest → S × Reply ReadFileResponse
  unfolding after_dec
  read_file_handler srv s md dec = after_dec (srv.read_file s md) s dec

  unfoldable pub write_file_handler :
      EnvdServer S → S → Metadata → Decoded WriteRequest → S × Reply WriteFileResponse
  unfolding after_dec
  write_file_handler srv s md dec = after_dec (srv.write_file s md) s dec

-- `JSONCodec` at one type: `json.Marshal`, and `json.Unmarshal` with its error as `none`.
pub record Json (A : Type 0) : Type 0 where
  pub marshal : A → Text
  pub unmarshal : Text → Option A

-- The codec at the types of the messages.
pub record JsonCodec : Type 0 where
  pub health_request_json : Json HealthRequest
  pub health_response_json : Json HealthResponse
  pub exec_request_json : Json ExecRequest
  pub exec_response_json : Json ExecResponse
  pub read_request_json : Json ReadFileRequest
  pub read_response_json : Json ReadFileResponse
  pub write_request_json : Json WriteRequest
  pub write_response_json : Json WriteFileResponse

-- What gRPC does around a handler: it decodes the bytes of a request and encodes the answer. Its own
-- error for bytes that it cannot decode is a parameter.
abbrev pub dec_of : {A : Type 0} → Code × Text → Option A → Decoded A
dec_of (code, message) none = undecoded code message
dec_of malformed (some a) = decoded a

abbrev pub wire :
    {S A B : Type 0}
    → Code × Text
    → Json A
    → Json B
    → (S → Metadata → Decoded A → S × Reply B)
    → S
    → Metadata
    → Text
    → S × Reply Text
wire malformed req res handler s md bytes =
    replied res.marshal (handler s md (dec_of malformed (req.unmarshal bytes)))

-- The handler of a method of the table, under the codec.
abbrev pub MethodDesc : Type 0 → Type 0
MethodDesc S = S → Metadata → Text → S × Reply Text

abbrev pub service_name : Text
service_name = codes "kubebox.envd.v1.Envd"

abbrev pub full_method : Text → Text
full_method method = codes "/" ++ service_name ++ codes "/" ++ method

unfoldable pub envd_service_desc :
    {S : Type 0} → JsonCodec → Code × Text → EnvdServer S → Map (MethodDesc S)
envd_service_desc json malformed srv =
    (
      codes "Health",
      wire malformed json.health_request_json json.health_response_json (health_handler srv),
    )
    ∷ (
      codes "Exec",
      wire malformed json.exec_request_json json.exec_response_json (exec_handler srv),
    )
    ∷ (
      codes "ReadFile",
      wire malformed json.read_request_json json.read_response_json (read_file_handler srv),
    )
    ∷ (
      codes "WriteFile",
      wire malformed json.write_request_json json.write_response_json (write_file_handler srv),
    )
    ∷ []

-- `conn.Invoke` with the JSON codec, on the bytes of a request, under the full name of a method; the
-- state is the server's.
abbrev pub Invoke : Type 0 → Type 0
Invoke S = S → Metadata → Text → Text → S × Reply Text

received_bytes : {S B : Type 0} → Code × Text → S → Option B → S × Reply B
received_bytes (code, message) s none = (s, failure code message)
received_bytes garbled s (some b) = (s, answer b)

-- What becomes of the bytes of an answer.
unfoldable pub received : {S B : Type 0} → Code × Text → Json B → S × Reply Text → S × Reply B
unfolding received_bytes
received garbled res (s, failure code message) = (s, failure code message)
received garbled res (s, answer bytes) = received_bytes garbled s (res.unmarshal bytes)

-- The methods of `Client`, over a connection. `garbled` is the library's error for an answer that it
-- cannot decode.
module _ {S : Type 0} (json : JsonCodec) (garbled : Code × Text) (invoke : Invoke S) where
  unfoldable pub client_health : S → Metadata → S × Reply HealthResponse
  unfolding received
  client_health s md =
      received garbled json.health_response_json (
        invoke s md (full_method (codes "Health"))
          (json.health_request_json.marshal health_request))

  unfoldable pub client_exec : S → Metadata → ExecRequest → S × Reply ExecResponse
  unfolding received
  client_exec s md req =
      received garbled json.exec_response_json
        (invoke s md (full_method (codes "Exec")) (json.exec_request_json.marshal req))

  unfoldable pub client_read_file : S → Metadata → ReadFileRequest → S × Reply ReadFileResponse
  unfolding received
  client_read_file s md req =
      received garbled json.read_response_json
        (invoke s md (full_method (codes "ReadFile")) (json.read_request_json.marshal req))

  unfoldable pub client_write_file : S → Metadata → WriteRequest → S × Reply WriteFileResponse
  unfolding received
  client_write_file s md req =
      received garbled json.write_response_json
        (invoke s md (full_method (codes "WriteFile")) (json.write_request_json.marshal req))
