-- ===== src/Envd/Service.antt =====
-- The execution service of internal/envd/service.go, its interface to an executor and the executor
-- that keeps its files in memory.
pub mod Gateway
pub mod Access
pub mod Transports
pub mod Memory
pub mod Process
pub mod Rpc
mod Examples
use kubebox.Common.{
  ℕ, [], ◌∷◌, ◌++◌, List, Text, codes, is_empty, trim_space, Map, lookup, insert, length,
  starts_with, ℤ, pos, Option, none, some, Bool, true, false, ◌||◌, if◌then◌else◌,
}
use kubebox.Envd.Authorize.{
  Denied, identity_required, identity_rejected, scope_rejected, Code, failed_precondition,
  invalid_argument, internal, not_found, grpc_code, server_authorize,
}
use kubebox.Envd.Executor.Command.{ExecResponse}

pub data Outcome {ℓ} (Er : Type 0) (A : Type ℓ) : Type ℓ where
  ok : A → Outcome Er A
  err : Er → Outcome Er A

-- The interface `Executor`, over a state `E` and errors `Er` with their texts.
pub record Executor (E Er : Type 0) : Type 0 where
  pub exec : E → Text → E × (ExecResponse × Option Er)
  pub read_file : E → Text → Outcome Er Text
  pub write_file : E → Text → Text → E × Outcome Er ℕ
  pub message : Er → Text

pub record Server (E : Type 0) : Type 0 where
  pub sandbox_id : Text
  pub executor : Option E

-- The answer of a method: a value, or a status with its message.
pub data Reply {ℓ} (A : Type ℓ) : Type ℓ where
  answer : A → Reply A
  failure : Code → Text → Reply A

pub record WriteRequest : Type 0 where
  pub path : Text
  pub bytes : Text

unfoldable pub denied_text : Denied → Text
denied_text identity_required = codes "internal sandbox identity is required"
denied_text identity_rejected = codes "sandbox identity rejected"
denied_text scope_rejected = codes "scope rejected"

abbrev pub Metadata : Type 0
Metadata = Option (Map (List Text))

-- `Health`
abbrev pub health_status : Text
health_status = codes "ok"

module _ {E Er : Type 0} (api : Executor E Er) where
  unfoldable pub exec_reply : ExecResponse × Option Er → Reply ExecResponse
  exec_reply (response, some e) = failure internal (api.message e)
  exec_reply (response, none) = answer response

  unfoldable pub read_reply : Outcome Er Text → Reply Text
  read_reply (err e) = failure not_found (api.message e)
  read_reply (ok bytes) = answer bytes

  unfoldable pub write_reply : Outcome Er ℕ → Reply ℕ
  write_reply (err e) = failure invalid_argument (api.message e)
  write_reply (ok n) = answer n

  unfoldable pub server_exec_on : Server E → Option E → Text → Server E × Reply ExecResponse
  unfolding exec_reply
  server_exec_on s none command = (s, failure failed_precondition (codes "executor unavailable"))
  server_exec_on s (some x) command =
      if is_empty (trim_space command)
      then (s, failure invalid_argument (codes "command is required"))
      else let (x', out) = api.exec x command in (record s { executor = some x' }, exec_reply out)

  unfoldable pub server_read_on : Server E → Option E → Text → Server E × Reply Text
  unfolding read_reply
  server_read_on s none path = (s, failure failed_precondition (codes "executor unavailable"))
  server_read_on s (some x) path = (s, read_reply (api.read_file x path))

  unfoldable pub server_write_on : Server E → Option E → WriteRequest → Server E × Reply ℕ
  unfolding write_reply
  server_write_on s none req = (s, failure failed_precondition (codes "executor unavailable"))
  server_write_on s (some x) req =
      let (x', out) = api.write_file x req.path req.bytes in
      (record s { executor = some x' }, write_reply out)

  -- `if err := s.authorize(...); err != nil { return nil, err }`
  unfoldable pub when_authorized :
      {A : Type 0} → Server E → Option Denied → Server E × Reply A → Server E × Reply A
  when_authorized s (some d) out = (s, failure (grpc_code d) (denied_text d))
  when_authorized s none out = out

  unfoldable pub server_exec : Server E → Metadata → Text → Server E × Reply ExecResponse
  unfolding when_authorized server_exec_on
  server_exec s md command =
      when_authorized s (server_authorize s.sandbox_id md (codes "commands"))
        (server_exec_on s s.executor command)

  unfoldable pub server_read_file : Server E → Metadata → Text → Server E × Reply Text
  unfolding when_authorized server_read_on
  server_read_file s md path =
      when_authorized s (server_authorize s.sandbox_id md (codes "files"))
        (server_read_on s s.executor path)

  unfoldable pub server_write_file : Server E → Metadata → WriteRequest → Server E × Reply ℕ
  unfolding when_authorized server_write_on
  server_write_file s md req =
      when_authorized s (server_authorize s.sandbox_id md (codes "files"))
        (server_write_on s s.executor req)
