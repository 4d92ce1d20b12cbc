-- ===== src/Commands/EnvdMain/Root.antt =====
-- The root of the executor of cmd/envd/main.go, and what this says of its files.
use kubebox.Common.{
  List, Text, codes, Option, none, some, true, ◌≡◌, refl, is_empty, Bool-cases, arith, inl, inr,
}
use kubebox.Envd.Executor.Paths.{OsError, FileError, Result, ok, err, PathApi, FileApi}
use kubebox.Envd.Executor.Files.{ProcessExecutor, canonical, new_process_executor}
use kubebox.Envd.Executor.Command.{Command, Run}
use kubebox.Envd.Executor.Climb.{IsPaths}
use kubebox.Envd.Service.{WriteRequest}
use kubebox.Envd.Service.Process.{process_executor}
use kubebox.Commands.EnvdMain.{
  Flags, flag_or, boot, boot_root, boot_executor, boot_listening, serving, Daemon, Received,
  daemon_run,
}
use kubebox.Commands.EnvdMain.Files.{AllQuiet, Written, unwritten, run-Written}

-- What is relied on at the start: `filepath.Abs` answers absolute paths, and the symbolic links of an
-- absolute path resolve to one.
pub record IsAbsolute (paths : PathApi) {F : Type 0} (files : FileApi F)
    (absolute : Text → Option OsError × Text) : Type 0 where
  pub is_abs-absolute : (t p : Text) → absolute t ≡ (none, p) → paths.is_abs p ≡ true
  pub is_abs-links :
      (fs : F) (p q : Text)
      → paths.is_abs p ≡ true
      → files.eval_symlinks fs p ≡ (none, q)
      → paths.is_abs q ≡ true

module _ (paths : PathApi) {F : Type 0} (files : FileApi F)
    (absolute : Text → Option OsError × Text) (law : IsPaths paths)
    (start : IsAbsolute paths files absolute) where
  canonical_absolute :
      (fs : F) (p : Text) (out : Option OsError × Text)
      → paths.is_abs p ≡ true
      → files.eval_symlinks fs p ≡ out
      → paths.is_abs (canonical p out) ≡ true
  canonical_absolute fs p (none, q) a h = start.is_abs-links fs p q a h
  canonical_absolute fs p (some o, q) a h = a

  executor_absolute :
      (fs : F) (t : Text) (out : Option OsError × Text) (e : ProcessExecutor)
      → absolute t ≡ out
      → new_process_executor paths files fs out ≡ ok e
      → paths.is_abs e.root ≡ true
  unfolding new_process_executor
  executor_absolute fs t (some o, p) e h made = cc
  executor_absolute fs t (none, p) e h made =
      let root : canonical (paths.clean p) (files.eval_symlinks fs (paths.clean p)) ≡ e.root = cc in
      rw (← root) (
        canonical_absolute fs (paths.clean p) _ (law.abs-clean p (start.is_abs-absolute t p h))
          refl)

  made_absolute :
      (fs : F) (t : Text) (o : Result ProcessExecutor) (listens : Option OsError) (id : Text)
      (e : ProcessExecutor) (d : Daemon F)
      → new_process_executor paths files fs (absolute t) ≡ o
      → boot_executor paths files absolute o listens id fs ≡ serving e d
      → paths.is_abs e.root ≡ true
  unfolding boot_executor boot_listening
  made_absolute fs t (err o) listens id e d made h = cc
  made_absolute fs t (ok x) (some o) id e d made h = cc
  made_absolute fs t (ok x) none id e d made h =
      let same : x ≡ e = cc in executor_absolute fs t (absolute t) e refl (rw same at made)

  root_absolute :
      (out : F × Option OsError) (listens : Option OsError) (id t : Text) (e : ProcessExecutor)
      (d : Daemon F)
      → boot_root paths files absolute out listens id t ≡ serving e d
      → paths.is_abs e.root ≡ true
  unfolding boot_root
  root_absolute (fs, some o) listens id t e d h = cc
  root_absolute (fs, none) listens id t e d h = made_absolute fs t _ listens id e d refl h

  -- The executor of a process that has started works under an absolute root.
  pub boot_absolute :
      (getenv : Text → Text) (flags : Flags) (listens : Option OsError) (fs : F)
      (e : ProcessExecutor) (d : Daemon F)
      → boot paths files absolute getenv flags listens fs ≡ serving e d
      → paths.is_abs e.root ≡ true
  unfolding boot
  boot_absolute getenv flags listens fs e d h =
      elim (Bool-cases
        (is_empty (flag_or flags.sandbox_id (getenv (codes "KUBEBOX_SANDBOX_ID"))))) [
          | inl unset ↦ absurd (ground (arith, unset, h))
          | inr set ↦ root_absolute _ listens _ _ e d (rw set at h)
        ]

  -- In a process that has started, over any calls on its two transports, in any order, but for those
  -- that run a command, all that becomes of the files is a sequence of writes, each of no more bytes
  -- than the limit, to a path that is contained in the root, after the creation of its parents.
  pub daemon_run-Written :
      (getenv : Text → Text) (flags : Flags) (listens : Option OsError) (fs : F)
      (e : ProcessExecutor) (d : Daemon F) (run : F → Command → F × Run)
      (message : FileError → Text) (parse_command : Text → Option Text)
      (parse_write : Text → Option WriteRequest) (calls : List Received)
      (h : boot paths files absolute getenv flags listens fs ≡ serving e d)
      → AllQuiet calls
      → let abs = boot_absolute getenv flags listens fs e d h in
        Written paths files run message law e abs parse_command parse_write d.executor
          (daemon_run
            (process_executor paths files run message law e abs)
            parse_command
            parse_write
            d
            calls).executor
  daemon_run-Written getenv flags listens fs e d run message parse_command parse_write calls h q =
      run-Written paths files run message law e (boot_absolute getenv flags listens fs e d h)
        parse_command parse_write d.executor d calls q unwritten
