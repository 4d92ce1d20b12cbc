-- ===== src/Envd/Service/Process.antt =====
-- `ProcessExecutor` of internal/envd/executor.go as the executor behind the gateway of
-- http_gateway.go.
use kubebox.Common.{
  ℕ, Text, codes, text_eq, is_empty, take, Option, none, some, true, Bool-cases, ◌≡◌, ◌≢◌, refl,
  inl, inr,
}
use kubebox.Envd.Authorize.{Denied}
use kubebox.Envd.Executor.Paths.{FileError, Result, PathApi, FileApi}
use kubebox.Envd.Executor.Files.{ProcessExecutor}
use kubebox.Envd.Executor.Command.{Command, Run, exec}
use kubebox.Envd.Executor.Climb.{IsPaths}
use kubebox.Envd.Executor.Containment.{Written, Ends, write_file-Ends}
use kubebox.Envd.Executor.Limits.{read_file-Read}
use kubebox.Envd.Service.{Outcome, ok, err, Executor, WriteRequest}
use kubebox.Envd.Service.Gateway.{
  HttpGateway, GatewayRequest, GatewayResponse, GatewayEndpoint, health_endpoint, commands_endpoint,
  read_endpoint, write_endpoint, when_method, when_granted, handle_read, handle_files_read,
  handle_write, handle_write_body, handle_files_write, gateway_serve,
}

abbrev outcome : {A : Type 0} → Result A → Outcome FileError A
outcome (Result.ok a) = ok a
outcome (Result.err e) = err e

module _ (paths : PathApi) {F : Type 0} (files : FileApi F) (run : F → Command → F × Run)
    (message : FileError → Text) (law : IsPaths paths) (e : ProcessExecutor)
    (abs : paths.is_abs e.root ≡ true) where
  -- How a write of the executor ends, for the theorem that it ends.
  abbrev write_end : F → Text → Text → F × Result ℕ
  write_end fs path bytes = (write_file-Ends paths files fs law e path bytes abs).0

  -- The executor under an absolute root, whose reads and writes end.
  abbrev pub process_executor : Executor F FileError
  process_executor = record {
    exec = exec run e;
    read_file = λ fs path. outcome (read_file-Read paths files fs law e path abs).0;
    write_file =
        λ fs path bytes. ((write_end fs path bytes).0, outcome (write_end fs path bytes).1);
    message = message;
  }

  -- The files are as they were, or what they are is a write below the root.
  pub data Touched (fs : F) : F → Type 0 where
    kept : Touched fs fs
    wrote :
        {path bytes : Text} {out : F × Result ℕ}
        → Written paths files fs e path bytes out
        → Touched fs out.0

  -- The gateway still has files, which are touched at most below the root.
  pub record Confined (fs : F) (g : HttpGateway F) : Type 0 where
    pub after : F
    pub there : g.executor ≡ some after
    pub touched : Touched fs after

  module _ (parse_command : Text → Option Text) (parse_write : Text → Option WriteRequest) where
    pub ends_Touched :
        (fs : F) (path bytes : Text) (out : F × Result ℕ)
        → Ends paths files fs e path bytes out
        → Touched fs out.0
    ends_Touched fs path bytes out (inl r) = rw r.answer kept
    ends_Touched fs path bytes out (inr w) = wrote w

    kept-Confined : (fs : F) (g : HttpGateway F) → g.executor ≡ some fs → Confined fs g
    kept-Confined fs g there = record { after = fs; there = there; touched = kept }

    write-Confined :
        (g : HttpGateway F) (fs : F) (req : Option WriteRequest)
        → g.executor ≡ some fs
        → Confined fs (handle_write process_executor parse_command parse_write g fs req).0
    unfolding handle_write
    write-Confined g fs none there = kept-Confined fs g there
    write-Confined g fs (some req) there = elim (Bool-cases (is_empty req.path)) [
      | inl blank ↦ rw blank (kept-Confined fs g there)
      | inr given ↦ rw given (record {
        after = (write_end fs req.path req.bytes).0;
        there = refl;
        touched =
            ends_Touched fs req.path req.bytes _
              (write_file-Ends paths files fs law e req.path req.bytes abs).2;
      })
    ]

    body-Confined :
        (g : HttpGateway F) (fs : F) (x : Option F) (body : Option Text)
        → x ≡ some fs
        → g.executor ≡ some fs
        → Confined fs (handle_write_body process_executor parse_command parse_write g x body).0
    unfolding handle_write_body
    body-Confined g fs none body same there = cc
    body-Confined g fs (some y) none same there = kept-Confined fs g there
    body-Confined g fs (some y) (some body) same there =
        let known : y ≡ fs = cc in
        rw known (write-Confined g fs (parse_write (take 1048576 body)) there)

    read-Confined :
        (g : HttpGateway F) (fs : F) (x : Option F) (path : Text)
        → g.executor ≡ some fs
        → Confined fs (handle_read process_executor parse_command parse_write g x path).0
    unfolding handle_read
    read-Confined g fs none path there = kept-Confined fs g there
    read-Confined g fs (some y) path there = elim (Bool-cases (is_empty path)) [
      | inl blank ↦ rw blank (kept-Confined fs g there)
      | inr given ↦ rw given (kept-Confined fs g there)
    ]

    guards-Confined :
        (method message' : Text) (g : HttpGateway F) (fs : F) (r : GatewayRequest)
        (granted : Option Denied) (out : HttpGateway F × GatewayResponse)
        → g.executor ≡ some fs
        → Confined fs out.0
        → Confined fs
            (when_method process_executor parse_command parse_write method g r message'
              (when_granted process_executor parse_command parse_write g granted out)).0
    unfolding when_method when_granted
    guards-Confined method message' g fs r none out there c =
        elim (Bool-cases (text_eq r.method method)) [
          | inl same ↦ rw same c
          | inr differs ↦ rw differs (kept-Confined fs g there)
        ]
    guards-Confined method message' g fs r (some d) out there c =
        elim (Bool-cases (text_eq r.method method)) [
          | inl same ↦ rw same (kept-Confined fs g there)
          | inr differs ↦ rw differs (kept-Confined fs g there)
        ]

    -- Over the gateway with this executor, a request to any endpoint but that of the commands leaves
    -- the files as they are, or all that it does to them is one write, of no more bytes than the
    -- limit, to a path that is contained in the root, after the creation of its parents. The root is
    -- absolute.
    pub gateway_serve-Confined :
        (g : HttpGateway F) (fs : F) (endpoint : GatewayEndpoint) (r : GatewayRequest)
        → g.executor ≡ some fs
        → endpoint ≢ commands_endpoint
        → Confined fs (gateway_serve process_executor parse_command parse_write g endpoint r).0
    unfolding gateway_serve handle_files_read handle_files_write
    gateway_serve-Confined g fs health_endpoint r there other = kept-Confined fs g there
    gateway_serve-Confined g fs commands_endpoint r there other = absurd (other refl)
    gateway_serve-Confined g fs read_endpoint r there other =
        guards-Confined (codes "GET") (codes "GET required") g fs r _
          (handle_read process_executor parse_command parse_write g g.executor r.query_path) there
          (read-Confined g fs g.executor r.query_path there)
    gateway_serve-Confined g fs write_endpoint r there other =
        guards-Confined (codes "POST") (codes "POST required") g fs r _
          (handle_write_body process_executor parse_command parse_write g g.executor r.body) there
          (body-Confined g fs g.executor r.body there there)
