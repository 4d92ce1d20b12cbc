-- ===== src/Envd/Executor/Examples.antt =====
-- A file system without symbolic links, and runs of the executor on it.
use kubebox.Common.{
  ℕ, suc, ◌+◌, ◌<◌, List, [], ◌∷◌, ◌++◌, Text, codes, text_eq, is_empty, starts_with, drop, length,
  trim_space, has_byte, Map, lookup, insert, ◌==◌, pos, Option, none, some, Bool, true, false,
  if◌then◌else◌, ◌≡◌, ◌≢◌, refl, sym, ap, ==_iff, Bool-cases, ◌⊎◌, inl, inr, arith,
}
use kubebox.Envd.Executor.Paths.{
  OsError, permission, is_not_exist, Result, ok, err, PathApi, FileApi, Lookup, present, failing,
  safe_path, create_path, target_of, within_root, inside, empty_command, climb, climb_step,
  eval_within_root, checked, check_resolved, or_os, rejoin,
}
use kubebox.Envd.Executor.Files.{
  ProcessExecutor, read_file, write_file, write_path, after_mkdir, after_write, path_to_write,
  default_timeout, default_max_output, default_max_file_len, new_process_executor,
}
use kubebox.Envd.Executor.Command.{Command, Run, empty_response, exec}
use kubebox.Envd.Executor.Climb.{IsPaths}
use kubebox.Envd.Executor.Containment.{Ends, write_file-Ends, create_path-safe_path}
use kubebox.Envd.Service.Gateway.{GatewayRequest, commands_endpoint, write_endpoint}
use kubebox.Envd.Service.Process.{process_executor}
use kubebox.Envd.Service.Rpc.Calls.{write_call}
use kubebox.Commands.EnvdMain.{
  Flags, boot, serving, Daemon, Received, over_grpc, over_http, daemon_run,
}
use kubebox.Commands.EnvdMain.Files.{Written}
use kubebox.Commands.EnvdMain.Root.{IsAbsolute, boot_absolute, daemon_run-Written}
use kubebox.Envd.Executor.Limits.{Read, read_file-Read, IsRun, exec_lem}

-- What stands before the last slash.
abbrev parent_of : ℕ → Option Text → Option Text
parent_of c (some q) = some (c ∷ q)
parent_of c none = if c == b'/' then some [] else none

abbrev parent : Text → Option Text
parent [] = none
parent (c ∷ s) = parent_of c (parent s)

abbrev dir_of : Option Text → Text
dir_of none = codes "."
dir_of (some []) = codes "/"
dir_of (some (c ∷ q)) = c ∷ q

-- What stands after it.
abbrev last : Text → Text
last [] = []
last (c ∷ s) = let rest = last s in if has_byte b'/' s then rest else if c == b'/' then s else c ∷ s

abbrev is_abs : Text → Bool
is_abs [] = false
is_abs (c ∷ s) = c == b'/'

abbrev join : Text → Text → Text
join p q = if text_eq p (codes "/") then p ++ q else p ++ (b'/' ∷ q)

abbrev rel : Text → Text → Option Text
rel root p =
    if text_eq root p
    then some (codes ".")
    else if starts_with p (root ++ codes "/")
    then some (drop (length root + 1) p)
    else some (codes "..")

abbrev paths : PathApi
paths = record {
  is_abs = is_abs;
  clean = λ p. p;
  join = join;
  dir = λ p. dir_of (parent p);
  base = last;
  rel = rel;
}

slash : (b : Bool) (q : Text) → (if b then some [] else none) ≡ some q → q ≡ []
slash true q h = cc
slash false q h = cc

parent_shorter : (s q : Text) → parent s ≡ some q → length q < length s
parent_shorter [] q h = cc
parent_shorter (c ∷ s) q h = of_rest (parent s) (parent_shorter s) h
  where
    of_rest :
        (rest : Option Text)
        → ((x : Text) → rest ≡ some x → length x < length s)
        → parent_of c rest ≡ some q
        → length q < suc (length s)
    of_rest none up g = rw (slash (c == b'/') q g) (omega arith)
    of_rest (some x) up g = let same : c ∷ x ≡ q = cc in omega (arith, up x refl, ap length same)

is_paths : IsPaths paths
is_paths = record {
  abs-dir = λ p a. abs_dir p a;
  shorter = λ p a. near p a;
  abs-join = λ p q a. abs_join p q a;
  abs-clean = λ p a. a;
}
  where
    abs_dir : (p : Text) → is_abs p ≡ true → is_abs (dir_of (parent p)) ≡ true
    abs_dir [] a = cc
    abs_dir (c ∷ s) a = of_rest (parent s)
      where
        of_rest : (rest : Option Text) → is_abs (dir_of (parent_of c rest)) ≡ true
        of_rest none = rw a refl
        of_rest (some x) = a

    near :
        (p : Text)
        → is_abs p ≡ true
        → (dir_of (parent p) ≡ p) ⊎ (length (dir_of (parent p)) < length p)
    near [] a = cc
    near (c ∷ s) a = of_rest s (parent s) (parent_shorter s)
      where
        of_rest :
            (t : Text) (rest : Option Text)
            → ((x : Text) → rest ≡ some x → length x < length t)
            → (dir_of (parent_of c rest) ≡ c ∷ t)
              ⊎ (length (dir_of (parent_of c rest)) < suc (length t))
        of_rest [] none up = rw a (inl (ap (λ k. k ∷ []) (sym ((==_iff c b'/').0 a))))
        of_rest (d ∷ t) none up = rw a (inr (omega arith))
        of_rest t (some x) up = inr (omega (arith, up x refl))

    abs_join : (p q : Text) → is_abs p ≡ true → is_abs (join p q) ≡ true
    abs_join [] q a = cc
    abs_join (c ∷ s) q a = elim (Bool-cases (text_eq (c ∷ s) (codes "/"))) [
      | inl top ↦ rw top a
      | inr below ↦ rw below a
    ]

abbrev Files : Type 0
Files = Map Text

abbrev found : {A : Type 0} → A → (Text → A) → Option Text → Option OsError × A
found d f none = (some (record { is_missing = true; text = codes "no such file" }), d)
found d f (some bytes) = (none, f bytes)

abbrev look : Option Text → Lookup
look none = failing (record { is_missing = true; text = codes "no such file" })
look (some bytes) = present

abbrev files : FileApi Files
files = record {
  lstat = λ fs p.
      if text_eq p (codes "/")
      then present
      else if text_eq p (codes "/r")
      then present
      else look (lookup p fs);
  eval_symlinks = λ fs p. (none, p);
  stat = λ fs p.
      found (record { is_dir = false; size = 0 })
        (λ bytes. record { is_dir = false; size = length bytes }) (lookup p fs);
  read = λ fs p. found [] (λ bytes. bytes) (lookup p fs);
  mkdir_all = λ fs p. (fs, none);
  write = λ fs p bytes. (insert p bytes fs, none);
}

abbrev executor : ProcessExecutor
executor = record {
  root = codes "/r";
  work_dir = codes "/r";
  timeout = pos 0;
  max_output = pos 3;
  max_file_len = pos 0;
}

abbrev stored : Files
stored = (codes "/r/a/b", codes "xy") ∷ []

-- The file is not there before the write, and its parent neither.
written : write_file paths files executor [] (codes "a/b") (codes "xy") ≡ some (stored, ok 2)
unfolding write_file safe_path eval_within_root climb climb_step checked check_resolved or_os rejoin
    within_root inside target_of path_to_write write_path after_mkdir after_write text_eq lookup
    insert starts_with has_byte
written = refl

write_file-Ends_example :
    (out : Files × Result ℕ) × (write_file paths files executor [] (codes "a/b") (codes "xy")
      ≡ some out)
    × Ends paths files [] executor (codes "a/b") (codes "xy") out
write_file-Ends_example =
    write_file-Ends paths files [] is_paths executor (codes "a/b") (codes "xy") refl

escape_refused :
    write_file paths files executor [] (codes "../b") (codes "xy") ≡ some ([], err permission)
unfolding write_file safe_path within_root inside target_of path_to_write write_path is_not_exist
    text_eq starts_with
escape_refused = refl

read_file-Read_example :
    (r : Result Text) × (read_file paths files executor stored (codes "/a/b") ≡ some r)
    × ((bytes : Text) → r ≡ ok bytes → Read paths files stored executor (codes "/a/b") bytes)
read_file-Read_example = read_file-Read paths files stored is_paths executor (codes "/a/b") refl

create_path-safe_path_example :
    create_path paths files stored (codes "/r") (codes "c/d")
    ≡ safe_path paths files stored (codes "/r") (codes "c/d")
create_path-safe_path_example = create_path-safe_path paths files stored (codes "/r") (codes "c/d")

abbrev run : Files → Command → Files × Run
run fs c = (
  fs,
  record {
    out_writes = codes "ab" ∷ codes "cd" ∷ [];
    err_writes = [];
    error = none;
    is_cancelled = false;
    is_late = false;
  },
)

exec_lem_example :
    let out = exec run executor stored (codes "ls") in
    ((is_empty (trim_space (codes "ls")) ≡ true)
      × (out ≡ (stored, (empty_response, some empty_command))))
    ⊎ IsRun run executor stored (codes "ls") out.0 out.1.0
exec_lem_example = exec_lem run executor stored (codes "ls")

abbrev request : GatewayRequest
request = record { method = codes "POST"; headers = []; query_path = []; body = some [] }

abbrev absolute : Text → Option OsError × Text
absolute t = (none, b'/' ∷ t)

is_absolute : IsAbsolute paths files absolute
is_absolute = record {
  is_abs-absolute = λ t p h. absolute_path t p h;
  is_abs-links = λ fs p q a h. let same : p ≡ q = cc in rw (← same) a;
}
  where
    absolute_path : (t p : Text) → absolute t ≡ (none, p) → is_abs p ≡ true
    absolute_path t p h = let same : b'/' ∷ t ≡ p = cc in rw (← same) refl

abbrev flags : Flags
flags = record { sandbox_id = some (codes "s"); root = some (codes "r") }

abbrev served : ProcessExecutor
served = record {
  root = codes "/r";
  work_dir = codes "/r";
  timeout = default_timeout;
  max_output = default_max_output;
  max_file_len = default_max_file_len;
}

abbrev daemon : Daemon Files
daemon = record { sandbox_id = codes "s"; executor = [] }

booted : boot paths files absolute (λ name. []) flags none [] ≡ serving served daemon
unfolding boot new_process_executor
booted = refl

abbrev identity : Map (List Text)
identity =
    (codes "x-kubebox-sandbox-id", codes "s" ∷ [])
    ∷ (codes "x-kubebox-scope", codes "files" ∷ [])
    ∷ []

abbrev calls : List Received
calls =
    over_http write_endpoint request
    ∷ over_grpc (some identity) (write_call (record { path = codes "a/b"; bytes = codes "xy" }))
    ∷ []

daemon_run-Written_example :
    let abs =
      boot_absolute paths files absolute is_paths is_absolute
        (λ name. [])
        flags
        none
        []
        served
        daemon
        booted in
    Written paths files run
      (λ e. [])
      is_paths
      served
      abs
      (λ t. none)
      (λ t. none)
      []
      (daemon_run
        (process_executor paths files run (λ e. []) is_paths served abs)
        (λ t. none)
        (λ t. none)
        daemon
        calls).executor
daemon_run-Written_example =
    daemon_run-Written paths files absolute is_paths is_absolute (λ name. []) flags none [] served
      daemon run (λ e. []) (λ t. none) (λ t. none) calls booted (other, (tt, tt))
  where
    other : write_endpoint ≢ commands_endpoint
    other h = cc
