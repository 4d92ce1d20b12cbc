-- ===== src/Envd/Executor/Climb.antt =====
-- The climb to the deepest existing ancestor, in `evalWithinRoot` and `createPath` of
-- internal/envd/executor.go: it ends, and what it finds.
use kubebox.Common.{
  ℕ, zero, suc, ◌<◌, ◌∷◌, List, Text, text_eq, text_eq_iff, length, Option, none, some, Bool-cases,
  Bool, true, false, if◌then◌else◌, ◌≡◌, ◌≢◌, subst, refl, ◌⊎◌, inl, inr, arith,
}
use kubebox.Envd.Executor.Paths.{
  OsError, not_exist, os, Result, ok, err, PathApi, FileApi, Lookup, present, failing, or_os,
  rejoin, climb, climb_step, create_step, check_resolved, checked, create_climb,
}

-- What is relied on: the parent of an absolute path is absolute, and shorter but for the root's,
-- which is the root; joining below an absolute path and cleaning keep a path absolute.
pub record IsPaths (paths : PathApi) : Type 0 where
  pub abs-dir : (p : Text) → paths.is_abs p ≡ true → paths.is_abs (paths.dir p) ≡ true
  pub shorter :
      (p : Text) → paths.is_abs p ≡ true → (paths.dir p ≡ p) ⊎ (length (paths.dir p) < length p)
  pub abs-join : (p q : Text) → paths.is_abs p ≡ true → paths.is_abs (paths.join p q) ≡ true
  pub abs-clean : (p : Text) → paths.is_abs p ≡ true → paths.is_abs (paths.clean p) ≡ true

abbrev pub Returns : {A : Type 0} → Option A → Type 0
Returns {A} o = (a : A) × (o ≡ some a)

module _ (paths : PathApi) {F : Type 0} (files : FileApi F) (fs : F) where
  -- The climb as a relation: from a path, with the names cut off so far, to the resolved path.
  pub data Resolves : Text → List Text → Text → Type 0 where
    here :
        {cur : Text} {tail : List Text} {found : Text}
        → files.lstat fs cur ≡ present
        → files.eval_symlinks fs cur ≡ (none, found)
        → Resolves cur tail (paths.clean (rejoin paths found tail))
    above :
        {cur : Text} {tail : List Text} {resolved : Text} (e : OsError)
        → files.lstat fs cur ≡ failing e
        → e.is_missing ≡ true
        → Resolves (paths.dir cur) (paths.base cur ∷ tail) resolved
        → Resolves cur tail resolved

  or_os-ok :
      {A B : Type 0} (o : Option OsError × A) (k : A → Result B) (b : B)
      → some (or_os o k) ≡ some (ok b)
      → (a : A) × (o ≡ (none, a)) × (k a ≡ ok b)
  unfolding or_os
  or_os-ok (none, a) k b h = (a, refl, cc)
  or_os-ok (some e, a) k b h = cc

  step_failing :
      (o : OsError) (missing top : Bool) (rest : Option (Result Text)) (resolved : Text)
      → (if missing then (if top then some (err not_exist) else rest) else some (err (os o)))
        ≡ some (ok resolved)
      → (missing ≡ true) × (rest ≡ some (ok resolved))
  step_failing o true false rest resolved h = (refl, h)
  step_failing o true true rest resolved h = cc
  step_failing o false top rest resolved h = cc

  step-Resolves :
      (l : Lookup) (cur : Text) (tail : List Text) (rest : Option (Result Text)) (resolved : Text)
      → files.lstat fs cur ≡ l
      → (rest ≡ some (ok resolved) → Resolves (paths.dir cur) (paths.base cur ∷ tail) resolved)
      → climb_step paths files fs l cur tail rest ≡ some (ok resolved)
      → Resolves cur tail resolved
  unfolding climb_step
  step-Resolves present cur tail rest resolved l up h =
      let (found, e, same) = or_os-ok _ _ resolved h in
      let end : paths.clean (rejoin paths found tail) ≡ resolved = cc in
      subst (Resolves cur tail) end (here l e)
  step-Resolves (failing e) cur tail rest resolved l up h =
      let (missing, below) =
        step_failing e e.is_missing (text_eq (paths.dir cur) cur) rest resolved h in
      above e l missing (up below)

  pub climb-Resolves :
      (n : ℕ) (cur : Text) (tail : List Text) (resolved : Text)
      → climb paths files fs n cur tail ≡ some (ok resolved)
      → Resolves cur tail resolved
  unfolding climb
  climb-Resolves zero cur tail resolved h = cc
  climb-Resolves (suc n) cur tail resolved h =
      step-Resolves (files.lstat fs cur) cur tail _ resolved refl
        (climb-Resolves n (paths.dir cur) (paths.base cur ∷ tail) resolved) h

  step-Returns :
      (l : Lookup) (cur : Text) (tail : List Text) (rest : Option (Result Text))
      → (paths.dir cur ≢ cur → Returns rest)
      → Returns (climb_step paths files fs l cur tail rest)
  unfolding climb_step
  step-Returns present cur tail rest up = (_, refl)
  step-Returns (failing e) cur tail rest up = elim (Bool-cases e.is_missing) [
    | inr broken ↦ rw broken (_, refl)
    | inl missing ↦ elim (Bool-cases (text_eq (paths.dir cur) cur)) [
      | inl top ↦ rw (missing, top) (_, refl)
      | inr below ↦
          rw (missing, below)
            (up (λ same. ground (arith, below, text_eq_iff (paths.dir cur) cur, same)))
    ]
  ]

  -- A climb from an absolute path that is shorter than the fuel ends.
  pub climb-Returns :
      IsPaths paths
      → (n : ℕ) (cur : Text) (tail : List Text) → paths.is_abs cur ≡ true
      → length cur < n
      → Returns (climb paths files fs n cur tail)
  unfolding climb
  climb-Returns law zero cur tail a h = absurd (omega arith)
  climb-Returns law (suc n) cur tail a h = step-Returns (files.lstat fs cur) cur tail _ (λ below.
      climb-Returns law n (paths.dir cur) (paths.base cur ∷ tail) (law.abs-dir cur a)
        (nearer (law.shorter cur a) below))
    where
      nearer :
          (paths.dir cur ≡ cur) ⊎ (length (paths.dir cur) < length cur)
          → paths.dir cur ≢ cur
          → length (paths.dir cur) < n
      nearer (inl top) below = absurd (below top)
      nearer (inr less) below = omega arith

  create_step-checked :
      (root cleaned : Text) (l : Lookup) (cur : Text) (tail : List Text)
      (rest : Option (Result Text))
      → create_step paths files fs root cleaned l cur tail (checked paths root cleaned rest)
        ≡ checked paths root cleaned (climb_step paths files fs l cur tail rest)
  unfolding create_step climb_step checked check_resolved or_os
  create_step-checked root cleaned present cur tail rest = ground arith
  create_step-checked root cleaned (failing e) cur tail rest = ground arith

  -- The loop of `createPath` is that of `evalWithinRoot` with the checks of `safePath` at its end.
  pub create_climb-checked :
      (root cleaned : Text) (n : ℕ) (cur : Text) (tail : List Text)
      → create_climb paths files fs root cleaned n cur tail
        ≡ checked paths root cleaned (climb paths files fs n cur tail)
  unfolding create_climb climb
  create_climb-checked root cleaned zero cur tail = unfold checked in refl
  create_climb-checked root cleaned (suc n) cur tail =
      rw (create_climb-checked root cleaned n (paths.dir cur) (paths.base cur ∷ tail))
        (create_step-checked root cleaned (files.lstat fs cur) cur tail _)
