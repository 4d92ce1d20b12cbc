-- ===== src/Envd/Executor/Files.antt =====
-- `ReadFile`, `WriteFile` and `NewProcessExecutor` of internal/envd/executor.go.
use kubebox.Common.{ℕ, Text, codes, length, ltb_ℤ, leb_ℤ, ℤ, pos, Option, none, some, if◌then◌else◌}
use kubebox.Envd.Executor.Paths.{
  OsError, not_exist, invalid, too_large, os, wrapped, Result, ok, err, is_not_exist, PathApi,
  FileInfo, FileApi, or_os, safe_path, create_path,
}

pub record ProcessExecutor : Type 0 where
  pub root : Text
  pub work_dir : Text
  -- Nanoseconds.
  pub timeout : ℤ
  pub max_output : ℤ
  pub max_file_len : ℤ

abbrev pub default_timeout : ℤ
default_timeout = pos 30000000000

abbrev pub default_max_output : ℤ
default_max_output = pos 1048576

abbrev pub default_max_file_len : ℤ
default_max_file_len = pos 8388608

-- A bound that is not positive stands for the default.
abbrev pub or_default : ℤ → ℤ → ℤ
or_default n d = if leb_ℤ n (pos 0) then d else n

abbrev pub max_len : ProcessExecutor → ℤ
max_len e = or_default e.max_file_len default_max_file_len

abbrev with_defaults : Text → ProcessExecutor
with_defaults root = record {
  root = root;
  work_dir = root;
  timeout = default_timeout;
  max_output = default_max_output;
  max_file_len = default_max_file_len;
}

-- What follows a loop that ends.
abbrev pub map_some : {A B : Type 0} → (A → B) → Option A → Option B
map_some f none = none
map_some f (some a) = some (f a)

abbrev pub and_then : {A B : Type 0} → Option A → (A → Option B) → Option B
and_then none k = none
and_then (some a) k = k a

-- The root with its symbolic links resolved, where that is possible.
abbrev pub canonical : Text → Option OsError × Text → Text
canonical abs (none, resolved) = resolved
canonical abs (some e, resolved) = abs

module _ (paths : PathApi) {F : Type 0} (files : FileApi F) where
  -- `absolute` is the answer of `filepath.Abs`, which asks for the working directory.
  unfoldable pub new_process_executor : F → Option OsError × Text → Result ProcessExecutor
  new_process_executor fs (some e, abs) = err (wrapped (codes "resolve root: ") e)
  new_process_executor fs (none, abs) =
      let cleaned = paths.clean abs in
      ok (with_defaults (canonical cleaned (files.eval_symlinks fs cleaned)))

  unfoldable pub read_info : ProcessExecutor → F → Text → Option OsError × FileInfo → Result Text
  read_info e fs p (some o, info) = if o.is_missing then err not_exist else err (os o)
  read_info e fs p (none, info) =
      if info.is_dir
      then err invalid
      else if ltb_ℤ (max_len e) (pos info.size)
      then err too_large
      else or_os (files.read fs p) ok

  unfoldable pub read_path : ProcessExecutor → F → Result Text → Result Text
  unfolding read_info
  read_path e fs (err x) = err x
  read_path e fs (ok p) = read_info e fs p (files.stat fs p)

  unfoldable pub read_file : ProcessExecutor → F → Text → Option (Result Text)
  unfolding read_path
  read_file e fs path = map_some (read_path e fs) (safe_path paths files fs e.root path)

  unfoldable pub after_write : Text → F × Option OsError → F × Result ℕ
  after_write bytes (fs, some o) = (fs, err (wrapped (codes "write file: ") o))
  after_write bytes (fs, none) = (fs, ok (length bytes))

  unfoldable pub after_mkdir : Text → Text → F × Option OsError → F × Result ℕ
  unfolding after_write
  after_mkdir p bytes (fs, some o) = (fs, err (wrapped (codes "create parent dirs: ") o))
  after_mkdir p bytes (fs, none) = after_write bytes (files.write fs p bytes)

  unfoldable pub write_path : F → Text → Result Text → F × Result ℕ
  unfolding after_mkdir
  write_path fs bytes (err x) = (fs, err x)
  write_path fs bytes (ok p) = after_mkdir p bytes (files.mkdir_all fs (paths.dir p))

  -- Where nothing is found, the path is derived again for a creation.
  unfoldable pub path_to_write : ProcessExecutor → F → Text → Result Text → Option (Result Text)
  path_to_write e fs path (ok p) = some (ok p)
  path_to_write e fs path (err x) =
      if is_not_exist x then create_path paths files fs e.root path else some (err x)

  unfoldable pub write_file : ProcessExecutor → F → Text → Text → Option (F × Result ℕ)
  unfolding path_to_write write_path
  write_file e fs path bytes =
      if ltb_ℤ (max_len e) (pos (length bytes))
      then some (fs, err too_large)
      else map_some (write_path fs bytes)
          (and_then (safe_path paths files fs e.root path) (path_to_write e fs path))
