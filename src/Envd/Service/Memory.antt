-- ===== src/Envd/Service/Memory.antt =====
-- `MemoryExecutor` of internal/envd/service.go.
use kubebox.Common.{
  ℕ, [], ◌∷◌, ◌++◌, Text, codes, text_eq, is_empty, Map, lookup, insert, lookup-insert,
  lookup-insert_self, length, starts_with, pos, Option, none, some, Bool, true, false, ◌||◌,
  Bool-cases, if◌then◌else◌, ◌≡◌, refl, ◌⊎◌, inl, inr,
}
use kubebox.Envd.Executor.Command.{ExecResponse}
use kubebox.Envd.Service.{Outcome, ok, err, Executor}

abbrev pub MemoryExecutor : Type 0
MemoryExecutor = Map Text

pub data MemoryError : Type 0 where
  not_exist invalid_path : MemoryError

abbrev pub new_memory_executor : MemoryExecutor
new_memory_executor = []

-- `strings.Contains` of a text that is not empty.
unfoldable pub contains : Text → Text → Bool
contains [] sub = false
contains (c ∷ s) sub = starts_with (c ∷ s) sub || contains s sub

unfoldable pub memory_exec :
    MemoryExecutor → Text → MemoryExecutor × (ExecResponse × Option MemoryError)
memory_exec m command = (
  m,
  (
    record { exit_code = pos 0; stdout = codes "executed: " ++ command ++ (10 ∷ []); stderr = [] },
    none,
  ),
)

unfoldable pub memory_found : Option Text → Outcome MemoryError Text
memory_found none = err not_exist
memory_found (some bytes) = ok bytes

unfoldable pub memory_read_file : MemoryExecutor → Text → Outcome MemoryError Text
unfolding memory_found
memory_read_file m path = memory_found (lookup path m)

unfoldable pub memory_write_file :
    MemoryExecutor → Text → Text → MemoryExecutor × Outcome MemoryError ℕ
unfolding contains
memory_write_file m path bytes =
    if is_empty path || contains path (codes "..")
    then (m, err invalid_path)
    else (insert path bytes m, ok (length bytes))

unfoldable pub memory_message : MemoryError → Text
memory_message not_exist = codes "file does not exist"
memory_message invalid_path = codes "invalid path"

abbrev pub memory_executor : Executor MemoryExecutor MemoryError
memory_executor = record {
  exec = memory_exec;
  read_file = memory_read_file;
  write_file = memory_write_file;
  message = memory_message;
}

-- A write to a path that is empty or contains `..` is refused and changes nothing. Any other reports
-- the length of its bytes; a read of the path then answers them, and a read of every other path
-- answers what it did before.
pub write_file-read_file :
    (m : MemoryExecutor) (path bytes : Text)
    → let out = memory_write_file m path bytes in
      ((is_empty path || contains path (codes "..") ≡ true) × (out ≡ (m, err invalid_path)))
      ⊎ ((is_empty path || contains path (codes "..") ≡ false)
          × (out.1 ≡ ok (length bytes))
          × (memory_read_file out.0 path ≡ ok bytes)
          × ((other : Text)
              → text_eq path other ≡ false
              → memory_read_file out.0 other ≡ memory_read_file m other))
unfolding memory_write_file memory_read_file memory_found
write_file-read_file m path bytes =
    elim (Bool-cases (is_empty path || contains path (codes ".."))) [
      | inl bad ↦ rw bad (inl (refl, refl))
      | inr good ↦ rw good (
          inr (
            refl,
            refl,
            rw (lookup-insert_self path bytes m) refl,
            λ other differs. rw (lookup-insert path other bytes m, differs) refl,
          ))
    ]
