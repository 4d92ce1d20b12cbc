-- ===== src/Commands/EnvdMain.antt =====
-- cmd/envd/main.go: the process inside a sandbox. Its gRPC server and its HTTP gateway share one
-- executor, and their calls interleave.
pub mod Files
pub mod Root
use kubebox.Common.{[], ◌∷◌, List, Text, codes, is_empty, Option, none, some, if◌then◌else◌}
use kubebox.Envd.Executor.Paths.{OsError, Result, ok, err, PathApi, FileApi}
use kubebox.Envd.Executor.Files.{ProcessExecutor, new_process_executor}
use kubebox.Envd.Service.{Executor, Reply, Metadata, WriteRequest, Server}
use kubebox.Envd.Service.Gateway.{
  HttpGateway, new_http_gateway, GatewayEndpoint, GatewayRequest, GatewayResponse, gateway_serve,
}
use kubebox.Envd.Service.Rpc.{server_methods}
use kubebox.Envd.Service.Rpc.Calls.{Call, Answer, server_call}

-- The flags that are given.
pub record Flags : Type 0 where
  pub sandbox_id : Option Text
  pub root : Option Text

abbrev pub flag_or : Option Text → Text → Text
flag_or none value = value
flag_or (some given) value = given

-- What `main` serves, over the files that the executor works on.
pub record Daemon (E : Type 0) : Type 0 where
  pub sandbox_id : Text
  pub executor : E

-- `log.Fatal`, or the executor with the daemon over the files.
pub data Boot (F : Type 0) : Type 0 where
  no_sandbox_id root_failed executor_failed listen_failed : Boot F
  serving : ProcessExecutor → Daemon F → Boot F

-- `absolute` is `filepath.Abs`, and `listens` is the error of `net.Listen` for the gRPC server.
module _ (paths : PathApi) {F : Type 0} (files : FileApi F)
    (absolute : Text → Option OsError × Text) where
  boot_listening : Option OsError → Text → ProcessExecutor → F → Boot F
  boot_listening (some e) sandbox_id executor fs = listen_failed
  boot_listening none sandbox_id executor fs =
      serving executor (record { sandbox_id = sandbox_id; executor = fs })

  boot_executor : Result ProcessExecutor → Option OsError → Text → F → Boot F
  unfolding boot_listening
  boot_executor (err e) listens sandbox_id fs = executor_failed
  boot_executor (ok executor) listens sandbox_id fs = boot_listening listens sandbox_id executor fs

  boot_root : F × Option OsError → Option OsError → Text → Text → Boot F
  unfolding boot_executor
  boot_root (fs, some e) listens sandbox_id root = root_failed
  boot_root (fs, none) listens sandbox_id root =
      boot_executor (new_process_executor paths files fs (absolute root)) listens sandbox_id fs

  unfoldable pub boot : (Text → Text) → Flags → Option OsError → F → Boot F
  unfolding boot_root
  boot getenv flags listens fs =
      let sandbox_id = flag_or flags.sandbox_id (getenv (codes "KUBEBOX_SANDBOX_ID")) in
      let given = flag_or flags.root (getenv (codes "KUBEBOX_SANDBOX_ROOT")) in
      let root = if is_empty given then codes "/sandbox" else given in
      if is_empty sandbox_id
      then no_sandbox_id
      else boot_root (files.mkdir_all fs root) listens sandbox_id root

-- A call on one of the transports.
pub data Received : Type 0 where
  over_grpc : Metadata → Call → Received
  over_http : GatewayEndpoint → GatewayRequest → Received

pub data Sent : Type 0 where
  grpc_reply : Reply Answer → Sent
  http_response : GatewayResponse → Sent

module _ {E : Type 0} where
  abbrev pub server_of : Daemon E → Server E
  server_of d = record { sandbox_id = d.sandbox_id; executor = some d.executor }

  abbrev pub gateway_of : Daemon E → HttpGateway E
  gateway_of d = new_http_gateway d.sandbox_id (some d.executor)

  -- Both transports hold the one executor, which no call takes away.
  abbrev pub shared : Daemon E → Option E → Daemon E
  shared d none = d
  shared d (some x) = record d { executor = x }

module _ {E Er : Type 0} (api : Executor E Er) (parse_command : Text → Option Text)
    (parse_write : Text → Option WriteRequest) where
  unfoldable pub daemon_step : Daemon E → Received → Daemon E × Sent
  daemon_step d (over_grpc md call) =
      let (s, reply) = server_call (server_methods api) (server_of d) md call in
      (shared d s.executor, grpc_reply reply)
  daemon_step d (over_http endpoint r) =
      let (g, response) = gateway_serve api parse_command parse_write (gateway_of d) endpoint r in
      (shared d g.executor, http_response response)

  unfoldable pub daemon_run : Daemon E → List Received → Daemon E
  daemon_run d [] = d
  daemon_run d (x ∷ rest) = daemon_run (daemon_step d x).0 rest
