-- ===== src/Commands/EnvdMain/Files.antt =====
-- What the calls on both transports of cmd/envd/main.go can do to the files.
use kubebox.Common.{[], ◌∷◌, List, Text, codes, Option, none, some, true, ◌≡◌, ◌≢◌, refl}
use kubebox.Envd.Authorize.{Denied, server_authorize}
use kubebox.Envd.Executor.Paths.{FileError, PathApi, FileApi}
use kubebox.Envd.Executor.Files.{ProcessExecutor}
use kubebox.Envd.Executor.Command.{Command, Run}
use kubebox.Envd.Executor.Climb.{IsPaths}
use kubebox.Envd.Executor.Containment.{write_file-Ends}
use kubebox.Envd.Service.{
  Reply, Metadata, WriteRequest, Server, when_authorized, server_read_on, server_write_on,
  server_read_file, server_write_file,
}
use kubebox.Envd.Service.Gateway.{HttpGateway, commands_endpoint}
use kubebox.Envd.Service.Process.{
  Touched, kept, Confined, ends_Touched, process_executor, gateway_serve-Confined,
}
use kubebox.Envd.Service.Rpc.{replied, server_methods}
use kubebox.Envd.Service.Rpc.Calls.{
  Call, health_call, exec_call, read_call, write_call, server_call,
}
use kubebox.Commands.EnvdMain.{
  Daemon, Received, over_grpc, over_http, server_of, gateway_of, shared, daemon_step, daemon_run,
}

-- A call that runs no command.
abbrev pub IsQuiet : Received → Type 0
IsQuiet (over_grpc md (exec_call req)) = ⊥
IsQuiet (over_grpc md _) = Unit {0}
IsQuiet (over_http endpoint r) = endpoint ≢ commands_endpoint

abbrev pub AllQuiet : List Received → Type 0
AllQuiet [] = Unit {0}
AllQuiet (x ∷ rest) = IsQuiet x × AllQuiet rest

replied_state : {S A B : Type 0} (f : A → B) (out : S × Reply A) → (replied f out).0 ≡ out.0
unfolding replied
replied_state f (s, Reply.answer a) = refl
replied_state f (s, Reply.failure c m) = refl

module _ (paths : PathApi) {F : Type 0} (files : FileApi F) (run : F → Command → F × Run)
    (message : FileError → Text) (law : IsPaths paths) (e : ProcessExecutor)
    (abs : paths.is_abs e.root ≡ true) (parse_command : Text → Option Text)
    (parse_write : Text → Option WriteRequest) where
  -- The files after some writes, each contained in the root.
  pub data Written (fs : F) : F → Type 0 where
    unwritten : Written fs fs
    then_wrote :
        {before after : F}
        → Written fs before
        → Touched paths files run message law e abs before after
        → Written fs after

  abbrev TouchedBy : Daemon F → Option F → Type 0
  TouchedBy d x = Touched paths files run message law e abs d.executor (shared d x).executor

  authorized_touched :
      {A : Type 0} (d : Daemon F) (granted : Option Denied) (out : Server F × Reply A)
      → TouchedBy d out.0.executor
      → TouchedBy d
          (when_authorized
            (process_executor paths files run message law e abs)
            (server_of d)
            granted
            out).0.executor
  unfolding when_authorized
  authorized_touched d none out t = t
  authorized_touched d (some denied) out t = kept

  server_touched :
      (d : Daemon F) (md : Metadata) (call : Call)
      → IsQuiet (over_grpc md call)
      → TouchedBy d
          (server_call
            (server_methods (process_executor paths files run message law e abs))
            (server_of d)
            md
            call).0.executor
  unfolding server_methods replied server_read_file server_write_file server_read_on server_write_on
  server_touched d md health_call q = kept
  server_touched d md (exec_call req) q = absurd q
  server_touched d md (read_call req) q =
      let api = process_executor paths files run message law e abs in
      rw (replied_state, replied_state)
        (authorized_touched d (server_authorize d.sandbox_id md (codes "files"))
          (server_read_on api (server_of d) (some d.executor) req.path) kept)
  server_touched d md (write_call req) q =
      let api = process_executor paths files run message law e abs in
      rw (replied_state, replied_state)
        (authorized_touched d (server_authorize d.sandbox_id md (codes "files"))
          (server_write_on api (server_of d) (some d.executor) req)
          (ends_Touched paths files run message law e abs parse_command parse_write d.executor
            req.path req.bytes _
            (write_file-Ends paths files d.executor law e req.path req.bytes abs).2))

  touched_of_gateway :
      (d : Daemon F) (g : HttpGateway F)
      → Confined paths files run message law e abs d.executor g
      → TouchedBy d g.executor
  touched_of_gateway d g c = rw c.there c.touched

  step_touched :
      (d : Daemon F) (x : Received)
      → IsQuiet x
      → Touched paths files run message law e abs d.executor
          (daemon_step
            (process_executor paths files run message law e abs)
            parse_command
            parse_write
            d
            x).0.executor
  unfolding daemon_step
  step_touched d (over_grpc md call) q = server_touched d md call q
  step_touched d (over_http endpoint r) q = touched_of_gateway d _ (
      gateway_serve-Confined paths files run message law e abs parse_command parse_write
        (gateway_of d) d.executor endpoint r refl q)

  pub run-Written :
      (fs : F) (d : Daemon F) (calls : List Received)
      → AllQuiet calls
      → Written fs d.executor
      → Written fs
          (daemon_run
            (process_executor paths files run message law e abs)
            parse_command
            parse_write
            d
            calls).executor
  unfolding daemon_run
  run-Written fs d [] q w = w
  run-Written fs d (x ∷ rest) q w =
      run-Written fs
        (daemon_step (process_executor paths files run message law e abs) parse_command parse_write
          d x).0
        rest q.1 (then_wrote w (step_touched d x q.0))
