-- ===== src/Envd/Executor/Command.antt =====
-- `Exec` of internal/envd/executor.go: a command under a time limit, its output cut off at a length.
use kubebox.Common.{
  [], ◌∷◌, ◌++◌, List, Text, codes, is_empty, trim_space, ℤ, pos, wrap32, Option, none, some, Bool,
  ◌||◌, if◌then◌else◌,
}
use kubebox.Envd.Output.{write_all}
use kubebox.Envd.Executor.Paths.{OsError, FileError, empty_command, timed_out, wrapped}
use kubebox.Envd.Executor.Files.{ProcessExecutor, or_default, default_timeout, default_max_output}

pub record ExecResponse : Type 0 where
  pub exit_code : ℤ
  pub stdout : Text
  pub stderr : Text

-- What is started: the program with its arguments, where, in which environment, for how long.
pub record Command : Type 0 where
  pub args : List Text
  pub dir : Text
  pub env : List Text
  pub timeout : ℤ

-- How a run of it ends: an exit code that is not zero, or an error to start or to wait.
pub data RunError : Type 0 where
  exited : ℤ → RunError
  run_failed : OsError → RunError

-- A run as it is seen by `Exec`: the writes to the two outputs, its error, and whether at its end the
-- caller's context is done or the time limit is over.
pub record Run : Type 0 where
  pub out_writes : List Text
  pub err_writes : List Text
  pub error : Option RunError
  pub is_cancelled : Bool
  pub is_late : Bool

unfoldable pub command_of : ProcessExecutor → Text → Command
command_of e command = record {
  args = codes "/bin/sh" ∷ codes "-c" ∷ command ∷ [];
  dir = e.work_dir;
  env =
      codes "PATH=/usr/local/bin:/usr/bin:/bin"
      ∷ (codes "HOME=" ++ e.work_dir)
      ∷ codes "LANG=C.UTF-8"
      ∷ [];
  timeout = or_default e.timeout default_timeout;
}

abbrev pub empty_response : ExecResponse
empty_response = record { exit_code = pos 0; stdout = []; stderr = [] }

-- The output that a limited writer keeps.
abbrev pub kept : ProcessExecutor → List Text → Text
kept e writes =
    (write_all (record { buffer = []; max = or_default e.max_output default_max_output })
      writes).buffer

unfoldable pub after_run : ExecResponse → Run → Option RunError → ExecResponse × Option FileError
after_run response r none = (response, none)
after_run response r (some e) =
    if r.is_cancelled || r.is_late then (response, some timed_out) else of_error e
  where
    of_error : RunError → ExecResponse × Option FileError
    of_error (exited code) = (record response { exit_code = wrap32 code }, none)
    of_error (run_failed o) = (response, some (wrapped (codes "run command: ") o))

-- `run` starts a command in a world and waits for it.
module _ {F : Type 0} (run : F → Command → F × Run) where
  unfoldable pub exec : ProcessExecutor → F → Text → F × (ExecResponse × Option FileError)
  unfolding after_run command_of
  exec e fs command =
      if is_empty (trim_space command)
      then (fs, (empty_response, some empty_command))
      else let (fs', r) = run fs (command_of e command) in
        let response : ExecResponse = record {
          exit_code = pos 0;
          stdout = kept e r.out_writes;
          stderr = kept e r.err_writes;
        } in
        (fs', after_run response r r.error)
