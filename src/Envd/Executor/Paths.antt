-- ===== src/Envd/Executor/Paths.antt =====
-- The resolution of paths in internal/envd/executor.go: withinRoot, evalWithinRoot, safePath and
-- createPath.
use kubebox.Common.{
  ℕ, zero, suc, ◌+◌, [], ◌∷◌, List, Text, codes, text_eq, is_empty, starts_with, trim_left, length,
  Option, none, some, Bool, true, false, not, ◌&&◌, if◌then◌else◌,
}

-- An error of the operating system: whether it says that a file does not exist, and its text.
pub record OsError : Type 0 where
  pub is_missing : Bool
  pub text : Text

pub data FileError : Type 0 where
  not_exist invalid permission too_large empty_command timed_out : FileError
  os : OsError → FileError
  -- An error with a text before it.
  wrapped : Text → OsError → FileError

pub data Result {ℓ} (A : Type ℓ) : Type ℓ where
  ok : A → Result A
  err : FileError → Result A

-- `os.IsNotExist` and `errors.Is(err, fs.ErrNotExist)`
unfoldable pub is_not_exist : FileError → Bool
is_not_exist not_exist = true
is_not_exist (os e) = e.is_missing
is_not_exist (wrapped s e) = e.is_missing
is_not_exist _ = false

-- The functions of `path/filepath` on the text of a path; `rel` is `none` for its error.
pub record PathApi : Type 0 where
  pub is_abs : Text → Bool
  pub clean : Text → Text
  pub join : Text → Text → Text
  pub dir : Text → Text
  pub base : Text → Text
  pub rel : Text → Text → Option Text

pub record FileInfo : Type 0 where
  pub is_dir : Bool
  pub size : ℕ

pub data Lookup : Type 0 where
  present : Lookup
  failing : OsError → Lookup

-- What the program asks of the file system `F`; a file is the text of its bytes.
pub record FileApi (F : Type 0) : Type 0 where
  pub lstat : F → Text → Lookup
  pub eval_symlinks : F → Text → Option OsError × Text
  pub stat : F → Text → Option OsError × FileInfo
  pub read : F → Text → Option OsError × Text
  pub mkdir_all : F → Text → F × Option OsError
  pub write : F → Text → Text → F × Option OsError

-- `if err != nil { return err }` around a value.
unfoldable pub or_os : {A B : Type 0} → Option OsError × A → (A → Result B) → Result B
or_os (some e, a) k = err (os e)
or_os (none, a) k = k a

module _ (paths : PathApi) where
  unfoldable pub inside : Option Text → Bool
  inside none = false
  inside (some rel) =
      if text_eq rel (codes ".")
      then true
      else not (text_eq rel (codes "..")) && not (starts_with rel (codes "../"))

  unfoldable pub within_root : Text → Text → Bool
  unfolding inside
  within_root root p = inside (paths.rel root p)

  -- The tail is kept with the name that was cut off last in front, which is joined first.
  unfoldable pub rejoin : Text → List Text → Text
  rejoin resolved [] = resolved
  rejoin resolved (name ∷ tail) = rejoin (paths.join resolved name) tail

  -- `filepath.Clean(filepath.Join(root, trimmed))`
  unfoldable pub target_of : Text → Text → Text
  target_of root path =
      paths.clean (paths.join root (if paths.is_abs path then trim_left b'/' path else path))

  -- The checks of the resolved path, before the answer.
  unfoldable pub check_resolved : Text → Text → Result Text → Result Text
  check_resolved root cleaned (err e) = err e
  check_resolved root cleaned (ok resolved) =
      if not (within_root root resolved) then err permission else ok cleaned

  unfoldable pub checked : Text → Text → Option (Result Text) → Option (Result Text)
  unfolding check_resolved
  checked root cleaned none = none
  checked root cleaned (some r) = some (check_resolved root cleaned r)

  module _ {F : Type 0} (files : FileApi F) (fs : F) where
    -- One round of the loop of `evalWithinRoot`, at `cur` with the names cut off so far; `rest` is the
    -- outcome of the rounds above.
    unfoldable pub climb_step :
        Lookup → Text → List Text → Option (Result Text) → Option (Result Text)
    climb_step present cur tail rest =
        some (or_os (files.eval_symlinks fs cur) (λ found. ok (paths.clean (rejoin found tail))))
    climb_step (failing e) cur tail rest =
        if e.is_missing
        then (if text_eq (paths.dir cur) cur then some (err not_exist) else rest)
        else some (err (os e))

    -- `none` means that the fuel has run out.
    unfoldable pub climb : ℕ → Text → List Text → Option (Result Text)
    unfolding climb_step
    climb zero cur tail = none
    climb (suc n) cur tail =
        climb_step (files.lstat fs cur) cur tail (climb n (paths.dir cur) (paths.base cur ∷ tail))

    unfoldable pub eval_within_root : Text → Option (Result Text)
    unfolding climb
    eval_within_root target = climb (length target + 1) target []

    unfoldable pub safe_path : Text → Text → Option (Result Text)
    unfolding checked eval_within_root
    safe_path root path =
        let cleaned = target_of root path in
        if is_empty path
        then some (err invalid)
        else if not (within_root root cleaned)
        then some (err permission)
        else checked root cleaned (eval_within_root cleaned)

    -- The loop of `createPath`, which makes its checks at the end of the climb.
    unfoldable pub create_step :
        Text → Text → Lookup → Text → List Text → Option (Result Text) → Option (Result Text)
    create_step root cleaned present cur tail rest = some (
        or_os (files.eval_symlinks fs cur) (λ found.
          let resolved = paths.clean (rejoin found tail) in
          if not (within_root root resolved) then err permission else ok cleaned))
    create_step root cleaned (failing e) cur tail rest =
        if e.is_missing
        then (if text_eq (paths.dir cur) cur then some (err not_exist) else rest)
        else some (err (os e))

    unfoldable pub create_climb : Text → Text → ℕ → Text → List Text → Option (Result Text)
    unfolding create_step
    create_climb root cleaned zero cur tail = none
    create_climb root cleaned (suc n) cur tail =
        create_step root cleaned (files.lstat fs cur) cur tail
          (create_climb root cleaned n (paths.dir cur) (paths.base cur ∷ tail))

    unfoldable pub create_path : Text → Text → Option (Result Text)
    unfolding create_climb
    create_path root path =
        let cleaned = target_of root path in
        if is_empty path
        then some (err invalid)
        else if not (within_root root cleaned)
        then some (err permission)
        else create_climb root cleaned (length cleaned + 1) cleaned []
