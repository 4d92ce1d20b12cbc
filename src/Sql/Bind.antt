-- ===== src/Sql/Bind.antt =====
-- `bind`: the question marks of a statement become numbered parameters.
use kubebox.Common.{
  ℕ, ◌+◌, [], ◌∷◌, ◌++◌, List, Text, split, push, decimal, ltb, ◌==◌, Bool-cases, inl, inr, true,
  ◌≡◌, refl, ◌∙◌, if◌then◌else◌, arith,
}
use kubebox.Sql.Store.{postgres, mysql, bind, bind_parts}

-- The plain reading of PostgreSQL's form: from left to right, the k-th question mark is `$k`.
pub number : ℕ → Text → Text
number k [] = []
number k (c ∷ q) = if c == b'?' then b'$' ∷ decimal k ++ number (k + 1) q else c ∷ number k q

abbrev mark : ℕ → Text
mark index = if ltb 0 index then b'$' ∷ decimal index else []

-- The parts of a statement, without the mark before the first.
abbrev unmarked : ℕ → List Text → Text
unmarked index [] = []
unmarked index (p ∷ ps) = p ++ bind_parts (index + 1) ps

bind_parts-split :
    (index : ℕ) (q : Text)
    → bind_parts index (split b'?' q) ≡ mark index ++ unmarked index (split b'?' q)
unfolding bind_parts split
bind_parts-split index [] = refl
bind_parts-split index (c ∷ q) = elim (Bool-cases (c == b'?')) [
  | inl found ↦ rw found refl
  | inr other ↦ rw other (marked (split b'?' q))
]
  where
    marked :
        (ps : List Text) → bind_parts index (push c ps) ≡ mark index ++ unmarked index (push c ps)
    marked [] = refl
    marked (p ∷ ps) = refl

unmarked-split : (index : ℕ) (q : Text) → unmarked index (split b'?' q) ≡ number (index + 1) q
unfolding split number bind_parts
unmarked-split index [] = refl
unmarked-split index (c ∷ q) = elim (Bool-cases (c == b'?')) [
  | inl found ↦
      rw (found, bind_parts-split (index + 1) q, unmarked-split (index + 1) q) (positive index)
  | inr other ↦ rw (other, ← unmarked-split index q) (pushed (split b'?' q))
]
  where
    positive :
        (k : ℕ)
        → mark (k + 1) ++ number (k + 1 + 1) q ≡ (b'$' ∷ decimal (k + 1)) ++ number (k + 1 + 1) q
    positive k = let p : ltb 0 (k + 1) ≡ true = ground arith in rw p refl

    pushed : (ps : List Text) → unmarked index (push c ps) ≡ c ∷ unmarked index ps
    pushed [] = refl
    pushed (p ∷ ps) = refl

-- For PostgreSQL `bind`, which splits a statement at its question marks and joins the parts, is the
-- plain reading that numbers them from left to right, from one; for MySQL it changes nothing.
pub bind-number : (q : Text) → (bind postgres q ≡ number 1 q) × (bind mysql q ≡ q)
unfolding bind
bind-number q = (bind_parts-split 0 q ∙ unmarked-split 0 q, refl)
