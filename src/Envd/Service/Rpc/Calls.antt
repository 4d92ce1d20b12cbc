-- ===== src/Envd/Service/Rpc/Calls.antt =====
-- A call of any method of the server, and its answer.
use kubebox.Envd.Executor.Command.{ExecResponse}
use kubebox.Envd.Service.{Reply, Metadata, WriteRequest}
use kubebox.Envd.Service.Rpc.{
  health_request, HealthResponse, ExecRequest, ReadFileRequest, ReadFileResponse, WriteFileResponse,
  EnvdServer, replied,
}

pub data Call : Type 0 where
  health_call : Call
  exec_call : ExecRequest → Call
  read_call : ReadFileRequest → Call
  write_call : WriteRequest → Call

pub data Answer : Type 0 where
  health_answer : HealthResponse → Answer
  exec_answer : ExecResponse → Answer
  read_answer : ReadFileResponse → Answer
  write_answer : WriteFileResponse → Answer

abbrev pub server_call : {S : Type 0} → EnvdServer S → S → Metadata → Call → S × Reply Answer
server_call srv s md health_call = replied health_answer (srv.health s md health_request)
server_call srv s md (exec_call req) = replied exec_answer (srv.exec s md req)
server_call srv s md (read_call req) = replied read_answer (srv.read_file s md req)
server_call srv s md (write_call req) = replied write_answer (srv.write_file s md req)
