-- ===== src/Envd/Executor/Limits.antt =====
-- The limits of internal/envd/executor.go: on what is read, on the output of a command.
use kubebox.Common.{
  ℕ, zero, suc, ◌<◌, [], ◌∷◌, codes, List, Text, is_empty, take, trim_space, Option, none, some,
  Bool-cases, ℤ, pos, negsuc, ltb_ℤ, leb_ℤ, Bool, true, false, if◌then◌else◌, ◌≡◌, refl, ◌∙◌, ap,
  ◌⊎◌, inl, inr, arith,
}
use kubebox.Envd.Output.{concat, write_all, write_all_lem}
use kubebox.Envd.Executor.Paths.{
  OsError, not_exist, invalid, too_large, empty_command, os, Result, ok, err, PathApi, FileApi,
  FileInfo, or_os, safe_path,
}
use kubebox.Envd.Executor.Files.{
  ProcessExecutor, max_len, or_default, default_timeout, default_max_output, read_info, read_path,
  read_file,
}
use kubebox.Envd.Executor.Command.{
  Command, Run, ExecResponse, RunError, exited, run_failed, kept, after_run, command_of,
  empty_response, exec,
}
use kubebox.Envd.Executor.Climb.{IsPaths}
use kubebox.Envd.Executor.Containment.{IsContained, safe_path-IsContained, safe_path-Returns}

missing-ok :
    (b : Bool) (o : OsError) (bytes : Text)
    → (if b then err not_exist else err (os o)) ≡ ok bytes
    → ⊥
missing-ok true o bytes h = cc
missing-ok false o bytes h = cc

tests-ok :
    (dir long : Bool) (got : Option OsError × Text) (bytes : Text)
    → (if dir then err invalid else if long then err too_large else or_os got ok) ≡ ok bytes
    → (dir ≡ false) × (long ≡ false) × (got ≡ (none, bytes))
unfolding or_os
tests-ok true long got bytes h = cc
tests-ok false true got bytes h = cc
tests-ok false false (some o, x) bytes h = cc
tests-ok false false (none, x) bytes h = (refl, refl, cc)

module _ (paths : PathApi) {F : Type 0} (files : FileApi F) (fs : F) where
  -- What was read: a contained file that is no directory and no longer than the limit.
  pub record Read (e : ProcessExecutor) (path bytes : Text) : Type 0 where
    pub place : Text
    pub contained : IsContained paths files fs e.root path place
    pub info : FileInfo
    pub stat : files.stat fs place ≡ (none, info)
    pub is_file : info.is_dir ≡ false
    pub short : leb_ℤ (pos info.size) (max_len e) ≡ true
    pub content : files.read fs place ≡ (none, bytes)

  read_info-ok :
      (e : ProcessExecutor) (p bytes : Text) (got : Option OsError × FileInfo)
      → read_info paths files e fs p got ≡ ok bytes
      → (info : FileInfo) × (got ≡ (none, info))
        × (info.is_dir ≡ false)
        × (leb_ℤ (pos info.size) (max_len e) ≡ true)
        × (files.read fs p ≡ (none, bytes))
  unfolding read_info or_os
  read_info-ok e p bytes (some o, info) h = absurd (missing-ok o.is_missing _ bytes h)
  read_info-ok e p bytes (none, info) h =
      let (is_file, short, content) =
        tests-ok info.is_dir (ltb_ℤ (max_len e) (pos info.size)) (files.read fs p) bytes h in
      (info, refl, is_file, ground (arith, short), content)

  -- If the root is absolute, a read always ends; where it answers without an error, it answers the
  -- content of a contained file that is no directory and whose size is within the limit.
  pub read_file-Read :
      IsPaths paths
      → (e : ProcessExecutor) (path : Text) → paths.is_abs e.root ≡ true
      → (r : Result Text) × (read_file paths files e fs path ≡ some r)
        × ((bytes : Text) → r ≡ ok bytes → Read e path bytes)
  unfolding read_file read_path
  read_file-Read law e path a =
      let (r, h) = safe_path-Returns paths files fs law e.root path a in
      (read_path paths files e fs r, rw h refl, λ bytes got. of_path r h bytes got)
    where
      of_path :
          (r : Result Text)
          → safe_path paths files fs e.root path ≡ some r
          → (bytes : Text) → read_path paths files e fs r ≡ ok bytes
          → Read e path bytes
      of_path (err x) h bytes got = cc
      of_path (ok p) h bytes got =
          let (info, stat, is_file, short, content) = read_info-ok e p bytes _ got in
          record {
            place = p;
            contained = safe_path-IsContained paths files fs e.root path p h;
            info = info;
            stat = stat;
            is_file = is_file;
            short = short;
            content = content;
          }

-- A limit with a positive default is positive.
or_default-IsPositive : (m : ℤ) (d : ℕ) → 0 < d → (n : ℕ) × (or_default m (pos d) ≡ pos n) × (0 < n)
or_default-IsPositive (pos zero) d h = (d, refl, h)
or_default-IsPositive (pos (suc n)) d h = (suc n, ground arith, omega arith)
or_default-IsPositive (negsuc n) d h = (d, ground arith, h)

kept_lem :
    (e : ProcessExecutor) (n : ℕ) (writes : List Text)
    → or_default e.max_output default_max_output ≡ pos n
    → kept e writes ≡ take n (concat writes)
kept_lem e n writes limit =
    ap (λ (m : ℤ). (write_all (record { buffer = []; max = m }) writes).buffer) limit
    ∙ (write_all_lem n writes).0

-- The end of a run changes the exit code at most.
after_run-outputs :
    (response : ExecResponse) (r : Run) (o : Option RunError)
    → ((after_run response r o).0.stdout ≡ response.stdout)
      × ((after_run response r o).0.stderr ≡ response.stderr)
unfolding after_run
after_run-outputs response r none = (refl, refl)
after_run-outputs response r (some (exited code)) = ground arith
after_run-outputs response r (some (run_failed o)) = ground arith

module _ {F : Type 0} (run : F → Command → F × Run) (e : ProcessExecutor) (fs : F) where
  -- One run of the command as the shell's argument, in the work directory and under a time limit, and
  -- an answer that holds the first bytes of its outputs.
  pub record IsRun (command : Text) (fs' : F) (answer : ExecResponse) : Type 0 where
    pub given : is_empty (trim_space command) ≡ false
    pub started : Command
    pub args : started.args ≡ codes "/bin/sh" ∷ codes "-c" ∷ command ∷ []
    pub dir : started.dir ≡ e.work_dir
    pub time : ℕ
    pub positive_time : 0 < time
    pub own_time : or_default e.timeout default_timeout ≡ pos time
    pub limited : started.timeout ≡ pos time
    pub limit : ℕ
    pub positive_limit : 0 < limit
    pub own_limit : or_default e.max_output default_max_output ≡ pos limit
    pub world : fs' ≡ (run fs started).0
    pub stdout : answer.stdout ≡ take limit (concat (run fs started).1.out_writes)
    pub stderr : answer.stderr ≡ take limit (concat (run fs started).1.err_writes)

  -- A command that is blank is refused and not run. Any other is run once, as the shell's argument in
  -- the work directory, under a time limit that is positive and the executor's own where that is
  -- positive; and of each of its outputs the answer holds the first bytes, however they were written,
  -- up to the limit on outputs, which is positive too.
  pub exec_lem :
      (command : Text)
      → let out = exec run e fs command in
        ((is_empty (trim_space command) ≡ true)
          × (out ≡ (fs, (empty_response, some empty_command))))
        ⊎ IsRun command out.0 out.1.0
  unfolding exec command_of
  exec_lem command = elim (Bool-cases (is_empty (trim_space command))) [
    | inl blank ↦ rw blank (inl (refl, refl))
    | inr given ↦
        let (time, own_time, positive_time) =
          or_default-IsPositive e.timeout 30000000000 (omega arith) in
        let (limit, own_limit, positive_limit) =
          or_default-IsPositive e.max_output 1048576 (omega arith) in
        let r : Run = (run fs (command_of e command)).1 in
        let response : ExecResponse = record {
          exit_code = pos 0;
          stdout = kept e r.out_writes;
          stderr = kept e r.err_writes;
        } in
        let same = after_run-outputs response r r.error in
        rw given (
          inr (record {
            given = given;
            started = command_of e command;
            args = refl;
            dir = refl;
            time = time;
            positive_time = positive_time;
            own_time = own_time;
            limited = own_time;
            limit = limit;
            positive_limit = positive_limit;
            own_limit = own_limit;
            world = refl;
            stdout = same.0 ∙ kept_lem e limit r.out_writes own_limit;
            stderr = same.1 ∙ kept_lem e limit r.err_writes own_limit;
          }))
  ]
