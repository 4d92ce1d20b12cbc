-- ===== src/Envd/Executor/Containment.antt =====
-- The containment of file operations in internal/envd/executor.go.
use kubebox.Common.{
  ℕ, ◌+◌, [], Text, is_empty, length, Option, none, some, Bool-cases, pos, ltb_ℤ, leb_ℤ, Bool, true,
  false, not, if◌then◌else◌, ◌≡◌, refl, ◌∙◌, ◌⊎◌, inl, inr, arith,
}
use kubebox.Envd.Executor.Paths.{
  FileError, permission, too_large, Result, ok, err, is_not_exist, PathApi, FileApi, target_of,
  eval_within_root, check_resolved, checked, within_root, safe_path, create_path,
}
use kubebox.Envd.Executor.Files.{
  ProcessExecutor, max_len, after_mkdir, write_path, path_to_write, write_file,
}
use kubebox.Envd.Executor.Climb.{
  IsPaths, Returns, Resolves, climb-Resolves, climb-Returns, create_climb-checked,
}

if_Returns :
    {A : Type 0} (b : Bool) (a : A) (o : Option A) → Returns o → Returns (if b then some a else o)
if_Returns true a o r = (a, refl)
if_Returns false a o r = r

-- A test that refuses has passed where the answer is a path.
refused-ok :
    (bad : Bool) (f : FileError) (o : Option (Result Text)) (p : Text)
    → (if bad then some (err f) else o) ≡ some (ok p)
    → (bad ≡ false) × (o ≡ some (ok p))
refused-ok true f o p h = cc
refused-ok false f o p h = (refl, h)

within-ok :
    (within : Bool) (cleaned p : Text)
    → some (if not within then err permission else ok cleaned) ≡ some (ok p)
    → (within ≡ true) × (cleaned ≡ p)
within-ok true cleaned p h = (refl, cc)
within-ok false cleaned p h = cc

target_of-abs :
    (paths : PathApi)
    → IsPaths paths
    → (root path : Text) → paths.is_abs root ≡ true
    → paths.is_abs (target_of paths root path) ≡ true
unfolding target_of
target_of-abs paths law root path a = law.abs-clean _ (law.abs-join root _ a)

module _ (paths : PathApi) {F : Type 0} (files : FileApi F) (fs : F) where
  -- A path that may be used: it is the target of the request, and it and what its deepest existing
  -- ancestor resolves to, with the rest of the names, are within the root.
  pub record IsContained (root path p : Text) : Type 0 where
    pub target : p ≡ target_of paths root path
    pub within : within_root paths root p ≡ true
    pub resolved : Text
    pub resolves : Resolves paths files fs p [] resolved
    pub resolved_within : within_root paths root resolved ≡ true

  -- `createPath`, which `WriteFile` tries where `safePath` finds nothing, answers on every input what
  -- `safePath` answers, errors included.
  pub create_path-safe_path :
      (root path : Text) → create_path paths files fs root path ≡ safe_path paths files fs root path
  unfolding create_path safe_path eval_within_root
  create_path-safe_path root path =
      rw
        (create_climb-checked paths files fs root (target_of paths root path)
          (length (target_of paths root path) + 1) (target_of paths root path) [])
        refl

  checked-ok :
      (root cleaned p : Text) (o : Option (Result Text))
      → checked paths root cleaned o ≡ some (ok p)
      → (x : Text) × (o ≡ some (ok x)) × (within_root paths root x ≡ true) × (cleaned ≡ p)
  unfolding checked check_resolved
  checked-ok root cleaned p none h = cc
  checked-ok root cleaned p (some (err e)) h = cc
  checked-ok root cleaned p (some (ok x)) h =
      let (inside, same) = within-ok (within_root paths root x) _ _ h in (x, refl, inside, cc)

  -- Every path that `safePath` answers is contained.
  pub safe_path-IsContained :
      (root path p : Text)
      → safe_path paths files fs root path ≡ some (ok p)
      → IsContained root path p
  unfolding safe_path eval_within_root
  safe_path-IsContained root path p h =
      let cleaned = target_of paths root path in
      let (given, h₁) = refused-ok (is_empty path) _ _ p h in
      let (within, h₂) = refused-ok (not (within_root paths root cleaned)) _ _ p h₁ in
      let (x, climbed, inside, same) = checked-ok root cleaned p _ h₂ in
      rw (← same) (record {
        target = refl;
        within = ground (arith, within);
        resolved = x;
        resolves = climb-Resolves paths files fs _ _ [] x climbed;
        resolved_within = inside;
      })

  checked-Returns :
      (root cleaned : Text) (o : Option (Result Text))
      → Returns o
      → Returns (checked paths root cleaned o)
  unfolding checked
  checked-Returns root cleaned none (x, h) = cc
  checked-Returns root cleaned (some x) r = (_, refl)

  pub safe_path-Returns :
      IsPaths paths
      → (root path : Text) → paths.is_abs root ≡ true
      → Returns (safe_path paths files fs root path)
  unfolding safe_path eval_within_root
  safe_path-Returns law root path a =
      let cleaned = target_of paths root path in
      if_Returns (is_empty path) _ _ (
        if_Returns (not (within_root paths root cleaned)) _ _ (
          checked-Returns root cleaned _ (
            climb-Returns paths files fs law (length cleaned + 1) cleaned []
              (target_of-abs paths law root path a) (omega arith))))

  -- The second try of a write ends as the first one did.
  path_to_write_lem :
      (e : ProcessExecutor) (path : Text) (r : Result Text)
      → safe_path paths files fs e.root path ≡ some r
      → path_to_write paths files e fs path r ≡ some r
  unfolding path_to_write
  path_to_write_lem e path (ok p) h = refl
  path_to_write_lem e path (err x) h = elim (Bool-cases (is_not_exist x)) [
    | inl missing ↦ rw missing (create_path-safe_path e.root path ∙ h)
    | inr other ↦ rw other refl
  ]

  -- How a write ends: it is refused and touches nothing, or it creates the parents of a contained path
  -- and writes the bytes there.
  pub record Refused {A : Type 0} (out : F × Result A) : Type 0 where
    pub reason : FileError
    pub answer : out ≡ (fs, err reason)

  pub record Written (e : ProcessExecutor) (path bytes : Text) (out : F × Result ℕ) : Type 0 where
    pub place : Text
    pub contained : IsContained e.root path place
    pub short : leb_ℤ (pos (length bytes)) (max_len e) ≡ true
    pub effect : out ≡ after_mkdir paths files place bytes (files.mkdir_all fs (paths.dir place))

  abbrev pub Ends : ProcessExecutor → Text → Text → F × Result ℕ → Type 0
  Ends e path bytes out = Refused out ⊎ Written e path bytes out

  write_path-Ends :
      (e : ProcessExecutor) (path bytes : Text) (r : Result Text)
      → leb_ℤ (pos (length bytes)) (max_len e) ≡ true
      → safe_path paths files fs e.root path ≡ some r
      → Ends e path bytes (write_path paths files fs bytes r)
  unfolding write_path
  write_path-Ends e path bytes (err x) short h = inl (record { reason = x; answer = refl })
  write_path-Ends e path bytes (ok p) short h = inr (record {
    place = p;
    contained = safe_path-IsContained e.root path p h;
    short = short;
    effect = refl;
  })

  -- If the root is absolute, a write always ends. It is refused with an error and leaves the file
  -- system as it is, or its bytes are no more than the limit and all that it does is to create the
  -- parents of a contained path and to write the bytes there.
  pub write_file-Ends :
      IsPaths paths
      → (e : ProcessExecutor) (path bytes : Text) → paths.is_abs e.root ≡ true
      → (out : F × Result ℕ) × (write_file paths files e fs path bytes ≡ some out)
        × Ends e path bytes out
  unfolding write_file
  write_file-Ends law e path bytes a = elim (Bool-cases (ltb_ℤ (max_len e) (pos (length bytes)))) [
    | inl long ↦ rw long (_, refl, inl (record { reason = too_large; answer = refl }))
    | inr short ↦
        let (r, h) = safe_path-Returns law e.root path a in
        (
          write_path paths files fs bytes r,
          rw (short, h, path_to_write_lem e path r h) refl,
          write_path-Ends e path bytes r (ground (arith, short)) h,
        )
  ]
