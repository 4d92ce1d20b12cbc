-- ===== src/Commands/Process.antt =====
-- How the programs under cmd wait and end: cmd/envd-proxy/main.go and cmd/envd/main.go.
use kubebox.Common.{Option, none, some}

-- An error of `Serve` or `ListenAndServe`.
pub data ServerError : Type 0 where
  server_closed server_failed : ServerError

-- What a goroutine sends for the result of `ListenAndServe`.
unfoldable pub serve_result : Option ServerError → Option ServerError
serve_result none = none
serve_result (some server_closed) = none
serve_result (some server_failed) = some server_failed

-- What ends the wait: a signal, or what a goroutine has sent.
pub data Wake : Type 0 where
  signalled : Wake
  sent : Option ServerError → Wake

pub data Exit : Type 0 where
  -- `log.Fatalf`, without a shutdown of the servers.
  fatal_exit : Exit
  -- The servers are shut down.
  stopped : Exit

unfoldable pub await : Wake → Exit
await signalled = stopped
await (sent none) = stopped
await (sent (some e)) = fatal_exit
